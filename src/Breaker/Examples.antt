-- ===== src/Breaker/Examples.antt =====
-- The breaker's theorems at concrete calls, and tests of the definitions.
use go_psrp.Common.{
  ℕ, ◌+◌, ◌≡◌, refl, ◌↔◌, true, false, Option, none, some, List, [], ◌∷◌, arith, if◌then◌else◌,
}
use go_psrp.Common.Errors.{GoError, message}
use go_psrp.Common.Int.{pos}
use go_psrp.Breaker.{
  CircuitBreakerPolicy, CircuitBreaker, Error, circuit_open, failed, state_closed, state_open,
  state_half_open, on_state_change, on_open, new_circuit_breaker, execute, check_state,
  update_state,
}
use go_psrp.Breaker.Invariant.{IsCoherent, Section, check, update, section, run, run-new-IsCoherent}
use go_psrp.Breaker.Calls.{
  settled, blocks, succeed_all, execute_fails_fast, execute_reopens, succeed_all_recovers,
}
use go_psrp.Breaker.Machine.{Outcome, good, bad, ever_open, Streak, opens_at-Streak}
use go_psrp.Breaker.History.{Leads, run-Leads}

abbrev refusal : GoError
refusal = message []

-- Two failures open the circuit, for 30 units; two successes close it.
abbrev policy : CircuitBreakerPolicy
policy = record {
  enabled = true;
  failure_threshold = pos 2;
  reset_timeout = pos 30;
  success_threshold = pos 2;
  has_on_state_change = true;
  has_on_open = true;
  has_on_close = false;
  has_on_half_open = false;
}

abbrev history : List Section
history =
    check 1
    ∷ update (some (failed refusal)) 2
    ∷ check 3
    ∷ update (some (failed refusal)) 4
    ∷ check 40
    ∷ []

history_probes : (run (new_circuit_breaker (some policy)) history).state ≡ state_half_open
unfolding run section check_state update_state new_circuit_breaker
history_probes = refl

history_fired :
    (run (new_circuit_breaker (some policy)) history).fired
    ≡ on_state_change state_closed state_open
      ∷ on_open
      ∷ on_state_change state_open state_half_open
      ∷ []
unfolding run section check_state update_state new_circuit_breaker
history_fired = refl

run-new-IsCoherent_example : IsCoherent (run (new_circuit_breaker (some policy)) history)
run-new-IsCoherent_example = run-new-IsCoherent policy history

run-Leads_example :
    let cb = run (new_circuit_breaker (some policy)) history in Leads state_closed cb.fired cb.state
run-Leads_example = run-Leads policy history refl

abbrev tripped : CircuitBreaker
tripped = record {
  state = state_open;
  failures = 2;
  successes = 0;
  last_failure = 4;
  threshold = pos 2;
  success_threshold = pos 2;
  timeout = pos 30;
  enabled = true;
  has_on_state_change = true;
  has_on_open = true;
  has_on_close = false;
  has_on_half_open = false;
  fired = [];
}

-- The function counts its runs.
abbrev works : ℕ → ℕ × Option Error
works n = (n + 1, none)

abbrev breaks : ℕ → ℕ × Option Error
breaks n = (n + 1, some (failed refusal))

execute_fails_fast_example : execute tripped works 5 20 21 ≡ (
    if blocks tripped 20
    then (tripped, 5, some circuit_open)
    else (settled tripped none 20 21, 6, none))
execute_fails_fast_example = execute_fails_fast tripped works 5 20 21

execute_blocks : (execute tripped works 5 20 21).1 ≡ 5
unfolding execute
execute_blocks = refl

execute_runs : (execute tripped works 5 35 36).1 ≡ 6
unfolding execute
execute_runs = refl

execute_reopens_example :
    let after = (execute tripped breaks 0 35 36).0 in
    (after.state ≡ state_open) × (after.last_failure ≡ 36) × (after.successes ≡ 0)
execute_reopens_example =
    execute_reopens tripped breaks 0 35 36 refusal refl refl (omega arith) refl

succeed_all_recovers_example : (succeed_all tripped ((35, 36) ∷ (37, 38) ∷ [])).state ≡ state_closed
succeed_all_recovers_example =
    succeed_all_recovers tripped 1 35 36 ((37, 38) ∷ []) refl refl refl (omega arith) (omega arith)

abbrev calls : List Outcome
calls =
    bad refusal 1 2 ∷ good 3 4 ∷ bad refusal 5 6 ∷ bad refusal 7 8 ∷ good 50 51 ∷ good 52 53 ∷ []

opens_at-Streak_example :
    (ever_open (new_circuit_breaker (some policy)) calls ≡ true) ↔ Streak 2 calls
opens_at-Streak_example = opens_at-Streak policy 1 calls refl refl
