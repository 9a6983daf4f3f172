-- ===== src/Execute.antt =====
-- client/client.go: Execute, its retry loop and the circuit breaker around it. An attempt is a call
-- of executeWithReconnectHandling; Execute.Recovery models that. Logging is left out.
pub mod Attempts
pub mod Recovery
mod Examples
use go_psrp.Common.{
  ◌++◌, ℕ, zero, suc, ◌+◌, ◌-◌, ◌/◌, ◌%◌, Bool, true, false, ◌&&◌, Option, none, some, List, [],
  ◌∷◌, if◌then◌else◌, ltb,
}
use go_psrp.Common.Int.{ℤ, pos, negsuc, pos_part, sub_ℕ, ltb_ℤ, leb_ℤ}
use go_psrp.Common.Text.{Text, codes, decimal}
use go_psrp.Common.State.{Result, ok, err}
use go_psrp.Common.Errors.{GoError, Sentinel, message, wrap}
use go_psrp.Breaker
use go_psrp.Breaker.{CircuitBreaker}
use go_psrp.Retry.{
  Floats, ReconnectPolicy, RetryPolicy, is_retryable_error, calculate_retry_backoff, second,
}

-- What Execute calls: the texts of errors, floats, randomness, the clock in nanoseconds, a wait that
-- ends early with ctx.Err(), and an attempt.
pub record Env : Type 1 where
  pub floats : Floats
  pub open floats use {Float}
  pub World : Type 0
  pub Output : Type 0
  pub text : Sentinel → Text
  pub crypto_rand : World → World × Float
  pub now : World → ℕ
  pub sleep : ℤ → World → World × Option GoError
  pub attempt : World → World × Result GoError Output

module _ (env : Env) where
  open env use {floats, World, Output, text, crypto_rand, now, sleep, attempt}
  open floats use {of_int, mul, trunc}

  pub record Config : Type 0 where
    pub retry : Option (RetryPolicy floats crypto_rand)
    pub reconnect : ReconnectPolicy floats

  -- The policy in use: the one configured, if it is enabled.
  unfoldable pub active_policy : Config → Option (RetryPolicy floats crypto_rand)
  active_policy c = elim c.retry [ none ↦ none | some p ↦ if p.enabled then some p else none ]

  unfoldable pub max_attempts : Config → ℤ
  unfolding active_policy
  max_attempts c = elim (active_policy c) [
    | some p ↦ p.max_attempts
    | none ↦
        if c.reconnect.enabled && ltb_ℤ (pos 0) c.reconnect.max_attempts
        then c.reconnect.max_attempts
        else pos 1
  ]

  -- The legacy backoff doubles, for the number of rounds given, up to the cap.
  doubled : ℕ → ℤ → ℤ → ℤ
  doubled zero max delay = delay
  doubled (suc n) max delay =
      let twice = trunc (mul (of_int delay) (of_int (pos 2))) in
      let rest = doubled n max twice in if ltb_ℤ max twice then max else rest

  is_zero : ℤ → Bool
  is_zero (pos zero) = true
  is_zero _ = false

  legacy_delay : ℕ → ReconnectPolicy floats → ℤ
  unfolding doubled is_zero
  legacy_delay n p =
      doubled (n - 1) p.max_delay (if is_zero p.initial_delay then pos second else p.initial_delay)

  unfoldable pub delay_before_retry : Config → ℕ → World → World × ℤ
  unfolding legacy_delay active_policy
  delay_before_retry c n w = elim (active_policy c) [
    | some p ↦ calculate_retry_backoff floats crypto_rand n (some p) w
    | none ↦ (w, legacy_delay n c.reconnect)
  ]

  -- `attempt > 1`, a positive MaxDuration, and more time than that since the start.
  unfoldable pub is_overdue : Config → ℕ → ℕ → World → Bool
  unfolding active_policy
  is_overdue c n start w = elim (active_policy c) [
    | none ↦ false
    | some p ↦
        ltb 1 n && (ltb_ℤ (pos 0) p.max_duration && ltb_ℤ p.max_duration (sub_ℕ (now w) start))
  ]

  overdue_error : ℕ → Option GoError → GoError
  overdue_error n none = message (codes "retry max duration exceeded")
  overdue_error n (some e) =
      wrap (codes "retry max duration exceeded after " ++ (decimal (n - 1) ++ codes " attempts: "))
        e

  -- The world, the captured result and the error returned.
  abbrev pub Outcome : Type 0
  Outcome = World × Option Output × Option GoError

  unfoldable pub slept :
      (ℕ → Option GoError → World → Outcome) → ℕ → GoError → World × Option GoError → Outcome
  slept again n e (w, some ended) = (w, none, some ended)
  slept again n e (w, none) = again (suc n) (some e) w

  unfoldable pub backed_off :
      (ℕ → Option GoError → World → Outcome) → ℕ → GoError → World × ℤ → Outcome
  unfolding slept
  backed_off again n e (w, delay) = slept again n e (sleep delay w)

  unfoldable pub attempted :
      Config → (ℕ → Option GoError → World → Outcome) → ℕ → World × Result GoError Output → Outcome
  unfolding backed_off delay_before_retry
  attempted c again n (w, ok out) = (w, some out, none)
  attempted c again n (w, err e) =
      if is_retryable_error text (some e)
      then if leb_ℤ (max_attempts c) (pos n)
        then (w, none, some e)
        else backed_off again n e (delay_before_retry c n w)
      else (w, none, some e)

  -- The loop, with the number of rounds left, the attempt's number and the last error.
  unfoldable pub loop : Config → ℕ → ℕ → ℕ → Option GoError → World → Outcome
  unfolding attempted is_overdue overdue_error
  loop c start zero n last w = (w, none, last)
  loop c start (suc left) n last w = elim (is_overdue c n start w) [
    | true ↦ (w, none, some (overdue_error n last))
    | false ↦ attempted c (loop c start left) n (attempt w)
  ]

  unfoldable pub operation : Config → World → Outcome
  unfolding loop
  operation c w = loop c (now w) (pos_part (max_attempts c)) 1 none w

  -- What the breaker runs: `operation` with its captured result.
  unfoldable pub guarded :
      Config → World × Option Output → (World × Option Output) × Option Breaker.Error
  unfolding operation
  guarded c (w, out) =
      let (w', out', e) = operation c w in
      ((w', out'), elim e [ none ↦ none | some x ↦ some (Breaker.failed x) ])

  -- `later` is the breaker's clock after the operation.
  unfoldable pub execute :
      Config
      → Option CircuitBreaker
      → World
      → ℕ
      → Option CircuitBreaker × World × Option Output × Option Breaker.Error
  unfolding guarded
  execute c none w later = let ((w', out'), e) = guarded c (w, none) in (none, w', out', e)
  execute c (some cb) w later =
      let (cb', (w', out'), e) = Breaker.execute cb (guarded c) (w, none) (now w) later in
      (some cb', w', out', e)
