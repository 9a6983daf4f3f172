-- ===== src/Breaker/Invariant.antt =====
-- client/breaker.go: what every order of the calls' locked sections keeps.
use go_psrp.Common.{ℕ, ◌<◌, ◌≡◌, ◌≢◌, ◌⊎◌, Option, some, List, [], ◌∷◌, arith}
use go_psrp.Common.Int.{pos, ◌<ℤ◌, ◌≤ℤ◌}
use go_psrp.Breaker.{
  state_closed, state_half_open, CircuitBreakerPolicy, CircuitBreaker, Error, new_circuit_breaker,
  check_state, update_state,
}

-- The two locked sections of Execute. Concurrent calls interleave them in any order.
pub data Section : Type 0 where
  check : ℕ → Section
  update : Option Error → ℕ → Section

unfoldable pub section : CircuitBreaker → Section → CircuitBreaker
section cb (check now) = (check_state cb now).0
section cb (update e now) = update_state cb e now

unfoldable pub run : CircuitBreaker → List Section → CircuitBreaker
run cb [] = cb
run cb (s ∷ ss) = run (section cb s) ss

pub record IsCoherent (cb : CircuitBreaker) : Type 0 where
  -- A closed circuit has not reached its threshold.
  pub closed_below : cb.state ≡ state_closed → (cb.failures ≡ 0) ⊎ (pos cb.failures <ℤ cb.threshold)
  -- A probing circuit has not reached its success threshold.
  pub half_open_below : cb.state ≡ state_half_open → pos cb.successes <ℤ cb.success_threshold
  -- Successes are counted in the half-open state alone.
  pub counts_half_open : cb.state ≢ state_half_open → cb.successes ≡ 0
  -- The circuit left the closed state because of a failure.
  pub open_failed : cb.state ≢ state_closed → 0 < cb.failures
  -- One success at least is asked for.
  pub asks_success : pos 1 ≤ℤ cb.success_threshold

new_circuit_breaker-IsCoherent :
    (p : CircuitBreakerPolicy) → IsCoherent (new_circuit_breaker (some p))
unfolding new_circuit_breaker
new_circuit_breaker-IsCoherent p = ground arith

check_state-IsCoherent :
    (cb : CircuitBreaker) (now : ℕ) → IsCoherent cb → IsCoherent (check_state cb now).0
unfolding check_state
check_state-IsCoherent cb now v = ground arith

update_state-IsCoherent :
    (cb : CircuitBreaker) (e : Option Error) (now : ℕ)
    → IsCoherent cb
    → IsCoherent (update_state cb e now)
unfolding update_state
update_state-IsCoherent cb e now v = ground arith

section-IsCoherent : (cb : CircuitBreaker) (s : Section) → IsCoherent cb → IsCoherent (section cb s)
unfolding section
section-IsCoherent cb (check now) v = check_state-IsCoherent cb now v
section-IsCoherent cb (update e now) v = update_state-IsCoherent cb e now v

run-IsCoherent : (cb : CircuitBreaker) (ss : List Section) → IsCoherent cb → IsCoherent (run cb ss)
unfolding run
run-IsCoherent cb [] v = v
run-IsCoherent cb (s ∷ ss) v = run-IsCoherent (section cb s) ss (section-IsCoherent cb s v)

-- Whatever order the locked sections of concurrent calls take, a breaker made from a policy keeps
-- its counters valid: closed means below the failure threshold, half-open means below the
-- success threshold, successes count in the half-open state alone, a circuit that is not closed
-- has seen a failure, and at least one success is asked for.
pub run-new-IsCoherent :
    (p : CircuitBreakerPolicy) (ss : List Section)
    → IsCoherent (run (new_circuit_breaker (some p)) ss)
run-new-IsCoherent p ss = run-IsCoherent _ ss (new_circuit_breaker-IsCoherent p)
