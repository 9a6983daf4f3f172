-- ===== src/Breaker/Calls.antt =====
-- client/breaker.go: one call of Execute, and the way back from the open state.
use go_psrp.Common.{
  ℕ, zero, suc, ◌+◌, ◌≤◌, ◌≡◌, Bool, true, false, Option, none, some, List, [], ◌∷◌, arith,
  if◌then◌else◌, ◌&&◌, length, ◌==◌,
}
use go_psrp.Common.Errors.{GoError}
use go_psrp.Common.Int.{pos, sub_ℕ, ◌<ℤ◌, leb_ℤ}
use go_psrp.Breaker.{
  CircuitBreaker, CircuitState, Error, state_closed, state_open, state_half_open, circuit_open,
  failed, check_state, update_state, execute,
}

abbrev pub is_open : CircuitState → Bool
is_open state_open = true
is_open _ = false

-- The circuit is in use and open, and its reset timeout has not run out at `now`.
abbrev pub blocks : CircuitBreaker → ℕ → Bool
blocks cb now = cb.enabled && (is_open cb.state && leb_ℤ (sub_ℕ now cb.last_failure) cb.timeout)

-- What a call that was let in leaves behind.
abbrev pub settled : CircuitBreaker → Option Error → ℕ → ℕ → CircuitBreaker
settled cb e now later = if cb.enabled then update_state (check_state cb now).0 e later else cb

-- A call is blocked exactly when the breaker is enabled and open and its timeout has not run out:
-- then it returns ErrCircuitOpen, the function does not run and the breaker stays as it was. Any
-- other call runs the function once, returns exactly what it returned, and hands its error to the
-- breaker, unless that is disabled.
pub execute_fails_fast :
    {W : Type 0} (cb : CircuitBreaker) (fn : W → W × Option Error) (w : W) (now later : ℕ)
    → execute cb fn w now later ≡ (
        if blocks cb now
        then (cb, w, some circuit_open)
        else (settled cb (fn w).1 now later, (fn w).0, (fn w).1))
unfolding execute
execute_fails_fast cb fn w now later = ground arith

-- A probe that fails after the timeout has run out opens the circuit again, with the time of that
-- failure and no success counted.
pub execute_reopens :
    {W : Type 0} (cb : CircuitBreaker) (fn : W → W × Option Error) (w : W) (now later : ℕ)
    (e : GoError)
    → cb.enabled ≡ true
    → cb.state ≡ state_open
    → cb.timeout <ℤ sub_ℕ now cb.last_failure
    → (fn w).1 ≡ some (failed e)
    → let after = (execute cb fn w now later).0 in
      (after.state ≡ state_open) × (after.last_failure ≡ later) × (after.successes ≡ 0)
unfolding execute
execute_reopens cb fn w now later e on opened late bad = ground arith

-- A call whose function succeeds, at the times of its two clock readings.
succeed : CircuitBreaker → ℕ × ℕ → CircuitBreaker
succeed cb (now, later) = (execute {W = Unit {0}} cb (λ w. (w, none)) tt now later).0

pub succeed_all : CircuitBreaker → List (ℕ × ℕ) → CircuitBreaker
succeed_all cb [] = cb
succeed_all cb (t ∷ ts) = succeed_all (succeed cb t) ts

-- Probing with `left + 1` successes still to come.
record Probing (cb : CircuitBreaker) (left : ℕ) : Type 0 where
  is_on : cb.enabled ≡ true
  is_probing : cb.state ≡ state_half_open
  asks : cb.success_threshold ≡ pos (cb.successes + suc left)

succeed-Probing :
    (cb : CircuitBreaker) (t : ℕ × ℕ) (n : ℕ) → Probing cb (suc n) → Probing (succeed cb t) n
unfolding succeed execute
succeed-Probing cb t n p = ground arith

succeed_last :
    (cb : CircuitBreaker) (t : ℕ × ℕ)
    → Probing cb 0
    → ((succeed cb t).state ≡ state_closed) × ((succeed cb t).failures ≡ 0)
unfolding succeed execute
succeed_last cb t p = ground arith

abbrev pub after_successes : ℕ → ℕ → CircuitState
after_successes k n = if k == n then state_closed else state_half_open

succeed_all-Probing :
    (ts : List (ℕ × ℕ)) (cb : CircuitBreaker) (n : ℕ)
    → Probing cb n
    → length ts ≤ suc n
    → (succeed_all cb ts).state ≡ after_successes (length ts) (suc n)
unfolding succeed_all
succeed_all-Probing [] cb n p h = ground (arith, p.is_probing)
succeed_all-Probing (t ∷ []) cb zero p h = (succeed_last cb t p).0
succeed_all-Probing (t ∷ u ∷ ts) cb zero p h = absurd (omega arith)
succeed_all-Probing (t ∷ ts) cb (suc n) p h =
    ground (arith, succeed_all-Probing ts (succeed cb t) n (succeed-Probing cb t n p) (omega arith))

-- From an open circuit that asks for `n + 1` successes and whose timeout has run out at the first
-- call: after that call and at most `n` more, all of which succeed, the circuit is closed if these
-- are `n + 1` calls in all, and half-open if they are fewer.
pub succeed_all_recovers :
    (cb : CircuitBreaker) (n now later : ℕ) (ts : List (ℕ × ℕ))
    → cb.enabled ≡ true
    → cb.state ≡ state_open
    → cb.success_threshold ≡ pos (suc n)
    → cb.timeout <ℤ sub_ℕ now cb.last_failure
    → length ts ≤ n
    → (succeed_all cb ((now, later) ∷ ts)).state ≡ after_successes (length ts) n
unfolding succeed_all succeed execute
succeed_all_recovers cb zero now later [] on opened asks late h = ground arith
succeed_all_recovers cb zero now later (t ∷ ts) on opened asks late h = absurd (omega arith)
succeed_all_recovers cb (suc n) now later ts on opened asks late h =
    succeed_all-Probing ts (succeed cb (now, later)) n (ground arith) h
