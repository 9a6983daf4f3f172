-- ===== src/Retry.antt =====
-- client/retry.go: which errors are retried, and the backoff before a retry. Durations are
-- nanoseconds; float64 and the source of randomness are parameters.
use go_psrp.Common.{
  ℕ, ◌-◌, ◌*◌, Bool, true, false, ◌||◌, Option, none, some, List, [], ◌∷◌, if◌then◌else◌, leb,
}
use go_psrp.Common.Int.{ℤ, pos, ltb_ℤ, leb_ℤ}
use go_psrp.Common.Text.{Text, codes, to_lower, contains}
use go_psrp.Common.Errors.{
  GoError, Sentinel, runspace_closed, runspace_broken, canceled, deadline_exceeded, eof,
  unexpected_eof, error_is, error_text,
}

abbrev network_errors : List Text
network_errors =
    codes "connection reset"
    ∷ codes "connection refused"
    ∷ codes "i/o timeout"
    ∷ codes "network is unreachable"
    ∷ codes "no route to host"
    ∷ codes "broken pipe"
    ∷ []

abbrev any_contained : Text → List Text → Bool
any_contained s [] = false
any_contained s (p ∷ ps) = contains s p || any_contained s ps

module _ (text : Sentinel → Text) where
  -- The matching of the error's text, for errors that no sentinel decides.
  network_error : GoError → Bool
  network_error e = any_contained (to_lower (error_text text e)) network_errors

  decided : GoError → Bool
  unfolding network_error
  decided e =
      if error_is e runspace_closed
      then false
      else if error_is e runspace_broken
      then false
      else if error_is e canceled
      then false
      else if error_is e deadline_exceeded
      then true
      else if error_is e eof || error_is e unexpected_eof
      then true
      else network_error e

  unfoldable pub is_retryable_error : Option GoError → Bool
  unfolding decided
  is_retryable_error none = false
  is_retryable_error (some e) = decided e

-- float64, with its conversions, arithmetic and comparisons.
pub record Floats : Type 1 where
  pub Float : Type 0
  pub of_int : ℤ → Float
  pub add : Float → Float → Float
  pub sub : Float → Float → Float
  pub mul : Float → Float → Float
  pub pow : Float → Float → Float
  pub lt : Float → Float → Bool
  pub le : Float → Float → Bool
  pub trunc : Float → ℤ

pub record ReconnectPolicy (floats : Floats) : Type 0 where
  pub enabled : Bool
  pub max_attempts : ℤ
  pub initial_delay : ℤ
  pub max_delay : ℤ
  pub jitter : Floats.Float floats

abbrev pub millisecond : ℕ
millisecond = 1_000_000

abbrev pub second : ℕ
second = 1_000_000_000

abbrev pub max_int64 : ℤ
max_int64 = pos 9223372036854775807

module _ (floats : Floats) {World : Type 0}
    (crypto_rand : World → World × Floats.Float floats) where
  open floats use {Float, of_int, add, sub, mul, pow, lt, le, trunc}

  pub record RetryPolicy : Type 0 where
    pub enabled : Bool
    pub max_attempts : ℤ
    pub initial_delay : ℤ
    pub max_delay : ℤ
    pub multiplier : Float
    pub jitter : Float
    pub max_duration : ℤ

  unfoldable pub jittered : ℤ → Float → World × Float → World × ℤ
  jittered d factor (w, r) =
      let offset = mul (sub (mul r (of_int (pos 2))) (of_int (pos 1))) (mul (of_int d) factor) in
      let result = trunc (add (of_int d) offset) in
      (w, if ltb_ℤ result (pos 0) then pos 0 else result)

  unfoldable pub apply_jitter : ℤ → Float → World → World × ℤ
  unfolding jittered
  apply_jitter d factor w =
      if le factor (of_int (pos 0)) || lt (of_int (pos 1)) factor
      then (w, d)
      else jittered d factor (crypto_rand w)

  -- The delay before jitter.
  unfoldable pub base_backoff : ℕ → RetryPolicy → ℤ
  base_backoff attempt p =
      let delay =
        if leb_ℤ p.initial_delay (pos 0) then pos (100 * millisecond) else p.initial_delay in
      let multiplier = if lt p.multiplier (of_int (pos 1)) then of_int (pos 2) else p.multiplier in
      let backoff = mul (of_int delay) (pow multiplier (of_int (pos (attempt - 1)))) in
      if leb attempt 1
      then delay
      else if lt (of_int p.max_delay) backoff || lt (of_int max_int64) backoff
      then if leb_ℤ p.max_delay (pos 0) then pos (5 * second) else p.max_delay
      else trunc backoff

  unfoldable pub calculate_retry_backoff : ℕ → Option RetryPolicy → World → World × ℤ
  unfolding apply_jitter base_backoff
  calculate_retry_backoff attempt none w = (w, pos second)
  calculate_retry_backoff attempt (some p) w = apply_jitter (base_backoff attempt p) p.jitter w
