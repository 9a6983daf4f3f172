-- ===== src/Reconnection.antt =====
-- client/reconnect.go: attemptReconnectWithBackoff, the attempts of the reconnect manager. The loop is
-- on fuel, since MaxAttempts 0 is no limit. Logging is left out.
pub mod Attempts
mod Examples
use go_psrp.Common.{
  ℕ, zero, suc, Bool, true, false, not, ◌&&◌, ◌||◌, Option, none, some, if◌then◌else◌,
}
use go_psrp.Common.Int.{ℤ, pos, is_zero_ℤ, ltb_ℤ, leb_ℤ}
use go_psrp.Common.Errors.{GoError}
use go_psrp.Retry.{Floats, ReconnectPolicy}

-- What is called: floats, rand.Float64, Client.Reconnect with the shell's identifier, the wait that
-- ends early when the manager is stopped or the context is done, and whether one of these holds now.
pub record Env : Type 1 where
  pub floats : Floats
  pub open floats use {Float}
  pub World : Type 0
  pub rand : World → World × Float
  pub attempt_reconnect : World → World × Option GoError
  pub wait : ℤ → World → World × Option GoError
  pub interrupted : World → Option GoError

module _ (env : Env) where
  open env use {floats, World, rand, attempt_reconnect, wait, interrupted}
  open floats use {Float, of_int, add, mul, le, trunc}

  unfoldable pub jittered : ℤ → Float → World × Float → World × ℤ
  jittered d factor (w, r) = (w, trunc (mul (of_int d) (add (of_int (pos 1)) (mul r factor))))

  unfoldable pub calculate_backoff : ReconnectPolicy floats → ℤ → World → World × ℤ
  unfolding jittered
  calculate_backoff p d w =
      if le p.jitter (of_int (pos 0)) then (w, d) else jittered d p.jitter (rand w)

  unfoldable pub next_delay : ReconnectPolicy floats → ℤ → ℤ
  next_delay p d =
      let twice = trunc (mul (of_int d) (of_int (pos 2))) in
      if ltb_ℤ p.max_delay twice then p.max_delay else twice

  -- none is the end of the fuel; the error returned is inside.
  abbrev pub Outcome : Type 0
  Outcome = World × Option (Option GoError)

  unfoldable pub waited : (GoError → World → Outcome) → GoError → World × Option GoError → Outcome
  waited again e (w, some x) = (w, some (some x))
  waited again e (w, none) = again e w

  unfoldable pub backed_off : (GoError → World → Outcome) → GoError → World × ℤ → Outcome
  unfolding waited
  backed_off again e (w, d) = waited again e (wait d w)

  unfoldable pub attempted :
      ReconnectPolicy floats
      → ℕ
      → ℤ
      → (GoError → World → Outcome)
      → World × Option GoError
      → Outcome
  unfolding backed_off
  attempted p n d again (w, none) = (w, some none)
  attempted p n d again (w, some e) =
      if ltb_ℤ (pos 0) p.max_attempts && leb_ℤ p.max_attempts (pos n)
      then (w, some (some e))
      else backed_off again e (calculate_backoff p d w)

  -- The loop, with the number of the attempt, the delay and the last error.
  unfoldable pub loop : ReconnectPolicy floats → ℕ → ℕ → ℤ → Option GoError → World → Outcome
  unfolding attempted
  loop p zero n d last w = (w, none)
  loop p (suc fuel) n d last w =
      if not (is_zero_ℤ p.max_attempts || leb_ℤ (pos n) p.max_attempts)
      then (w, some last)
      else elim (interrupted w) [
        | some e ↦ (w, some (some e))
        | none ↦
            attempted p n d (λ e. loop p fuel (suc n) (next_delay p d) (some e))
              (attempt_reconnect w)
      ]

  unfoldable pub attempt_reconnect_with_backoff : ReconnectPolicy floats → ℕ → World → Outcome
  unfolding loop
  attempt_reconnect_with_backoff p fuel w = loop p fuel 1 p.initial_delay none w
