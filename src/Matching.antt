-- ===== src/Matching.antt =====
-- Text matching in package client: containsIgnoreCase, bytesContains and isTransientError of
-- client/reconnect.go, isPoolBrokenError and the sanitizing of logged scripts of client/client.go.
pub mod Search
pub mod Sanitizing
mod Examples
use go_psrp.Common.{
  ℕ, zero, suc, ◌+◌, ◌-◌, Bool, true, false, ◌&&◌, ◌||◌, Option, none, some, List, [], ◌∷◌, ◌++◌,
  if◌then◌else◌, leb, ◌==◌, length, take,
}
use go_psrp.Common.Text.{Text, codes, to_lower, contains}

-- The inner loop of bytesContains, at the index where `b` begins.
matches_at : Text → Text → Bool
matches_at b [] = true
matches_at [] (y ∷ sub) = false
matches_at (x ∷ b) (y ∷ sub) = x == y && matches_at b sub

-- The outer loop, with the number of rounds left.
scan : ℕ → Text → Text → Bool
unfolding matches_at
scan zero b sub = false
scan (suc k) [] sub = matches_at [] sub
scan (suc k) (x ∷ b) sub = if matches_at (x ∷ b) sub then true else scan k b sub

pub bytes_contains : Text → Text → Bool
unfolding scan
bytes_contains b sub =
    scan (if leb (length sub) (length b) then length b - length sub + 1 else 0) b sub

-- Its two loops that lower the letters are `to_lower`.
unfoldable pub contains_ignore_case : Text → Text → Bool
unfolding bytes_contains
contains_ignore_case s sub =
    leb (length sub) (length s) && bytes_contains (to_lower s) (to_lower sub)

-- `for _, pattern := range patterns { if … { return true } }`
abbrev pub any_pattern : (Text → Bool) → List Text → Bool
any_pattern found [] = false
any_pattern found (p ∷ ps) = if found p then true else any_pattern found ps

abbrev transient_patterns : List Text
transient_patterns =
    codes "connection reset"
    ∷ codes "connection refused"
    ∷ codes "i/o timeout"
    ∷ codes "timeout"
    ∷ codes "temporary failure"
    ∷ codes "network is unreachable"
    ∷ codes "no route to host"
    ∷ codes "EOF"
    ∷ []

-- The argument is the error's text, if there is an error.
unfoldable pub is_transient_error : Option Text → Bool
unfolding contains_ignore_case
is_transient_error none = false
is_transient_error (some text) = any_pattern (contains_ignore_case text) transient_patterns

abbrev broken_patterns : List Text
broken_patterns =
    codes "runspace pool broken"
    ∷ codes "runspace pool is broken"
    ∷ codes "pool broken"
    ∷ codes "connection was aborted"
    ∷ codes "wsarecv:"
    ∷ codes "wsasend:"
    ∷ []

unfoldable pub is_pool_broken_error : Option Text → Bool
unfolding contains_ignore_case
is_pool_broken_error none = false
is_pool_broken_error (some text) = any_pattern (contains_ignore_case text) broken_patterns

abbrev pub sensitive_patterns : List Text
sensitive_patterns =
    codes "password"
    ∷ codes "credential"
    ∷ codes "secret"
    ∷ codes "apikey"
    ∷ codes "api_key"
    ∷ codes "access_token"
    ∷ codes "accesstoken"
    ∷ codes "-password"
    ∷ codes "-credential"
    ∷ codes "convertto-securestring"
    ∷ codes "pscredential"
    ∷ codes "get-credential"
    ∷ []

unfoldable pub contains_sensitive_pattern : Text → Bool
contains_sensitive_pattern s = any_pattern (contains (to_lower s)) sensitive_patterns

abbrev pub notice : Text
notice = codes "[script contains sensitive data - not logged]"

abbrev pub ellipsis : Text
ellipsis = codes "... [truncated]"

unfoldable pub sanitize_script_for_logging : Text → Text
sanitize_script_for_logging script =
    if contains_sensitive_pattern script
    then notice
    else if leb (length script) 100
    then script
    else take 100 script ++ ellipsis
