-- ===== src/Matching/Examples.antt =====
-- The matching theorems at concrete texts, and tests of the definitions.
use go_psrp.Common.{◌≤◌, ◌≡◌, refl, ◌↔◌, true, false, some, length}
use go_psrp.Common.Text.{codes}
use go_psrp.Matching.{
  contains_ignore_case, is_transient_error, is_pool_broken_error, contains_sensitive_pattern,
  sanitize_script_for_logging, notice,
}
use go_psrp.Matching.Search.{Occurs, contains_ignore_case_iff}
use go_psrp.Matching.Sanitizing.{sanitize_hides}

reset_is_transient : is_transient_error (some (codes "read tcp: Connection RESET by peer")) ≡ true
unfolding is_transient_error
reset_is_transient = refl

denied_is_not : is_transient_error (some (codes "access denied")) ≡ false
unfolding is_transient_error
denied_is_not = refl

aborted_is_broken :
    is_pool_broken_error (some (codes "WSARecv: An established connection was aborted")) ≡ true
unfolding is_pool_broken_error
aborted_is_broken = refl

password_is_hidden : sanitize_script_for_logging (codes "$PassWord = 'x'") ≡ notice
unfolding sanitize_script_for_logging contains_sensitive_pattern
password_is_hidden = refl

contains_ignore_case_iff_example :
    (contains_ignore_case (codes "abcEOF") (codes "eof") ≡ true)
    ↔ Occurs (codes "eof") (codes "abcEOF")
contains_ignore_case_iff_example = contains_ignore_case_iff (codes "abcEOF") (codes "eof")

sanitize_hides_example :
    (contains_sensitive_pattern (sanitize_script_for_logging (codes "Get-Process")) ≡ false)
    × (length (sanitize_script_for_logging (codes "Get-Process")) ≤ 115)
sanitize_hides_example = sanitize_hides (codes "Get-Process")
