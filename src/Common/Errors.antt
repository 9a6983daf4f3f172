-- ===== src/Common/Errors.antt =====
-- Go errors: sentinels, errors made from a text, and wrapping by fmt.Errorf with %w.
use go_psrp.Common.Text.{Text}
use mathlib.Core.Bool.{Bool, true, false}
use mathlib.Core.List.{◌++◌}

-- runspace.ErrClosed and runspace.ErrBroken, errors of the packages context and io, and
-- transport.ErrUnauthorized.
pub data Sentinel : Type 0 where
  runspace_closed runspace_broken canceled deadline_exceeded eof unexpected_eof unauthorized :
      Sentinel

pub data GoError : Type 0 where
  sentinel : Sentinel → GoError
  message : Text → GoError
  -- The text before the wrapped error's own.
  wrap : Text → GoError → GoError

abbrev pub same_sentinel : Sentinel → Sentinel → Bool
same_sentinel runspace_closed runspace_closed = true
same_sentinel runspace_broken runspace_broken = true
same_sentinel canceled canceled = true
same_sentinel deadline_exceeded deadline_exceeded = true
same_sentinel eof eof = true
same_sentinel unexpected_eof unexpected_eof = true
same_sentinel unauthorized unauthorized = true
same_sentinel _ _ = false

-- errors.Is
abbrev pub error_is : GoError → Sentinel → Bool
error_is (sentinel s) t = same_sentinel s t
error_is (message m) t = false
error_is (wrap m e) t = error_is e t

-- err.Error(); the texts of the sentinels are given.
abbrev pub error_text : (Sentinel → Text) → GoError → Text
error_text text (sentinel s) = text s
error_text text (message m) = m
error_text text (wrap m e) = m ++ error_text text e
