-- ===== src/Breaker.antt =====
-- client/breaker.go: the circuit breaker. A method takes the breaker and the reading of its clock
-- and returns the new breaker. `fired` lists the callbacks that were started with `go`, in order.
pub mod Invariant
pub mod Machine
pub mod Calls
pub mod History
mod Examples
use go_psrp.Common.{
  ℕ, ◌+◌, Bool, true, false, Option, none, some, List, [], ◌∷◌, ◌++◌, if◌then◌else◌,
}
use go_psrp.Common.Errors.{GoError}
use go_psrp.Common.Int.{ℤ, pos, sub_ℕ, ltb_ℤ, leb_ℤ}

pub data CircuitState : Type 0 where
  state_closed state_open state_half_open : CircuitState

pub data Callback : Type 0 where
  on_state_change : CircuitState → CircuitState → Callback
  on_open on_close on_half_open : Callback

-- `has_…` tells whether the policy's callback is not nil.
pub record CircuitBreakerPolicy : Type 0 where
  pub enabled : Bool
  pub failure_threshold : ℤ
  pub reset_timeout : ℤ
  pub success_threshold : ℤ
  pub has_on_state_change : Bool
  pub has_on_open : Bool
  pub has_on_close : Bool
  pub has_on_half_open : Bool

pub record CircuitBreaker : Type 0 where
  pub state : CircuitState
  pub failures : ℕ
  pub successes : ℕ
  pub last_failure : ℕ
  pub threshold : ℤ
  pub success_threshold : ℤ
  pub timeout : ℤ
  pub enabled : Bool
  pub has_on_state_change : Bool
  pub has_on_open : Bool
  pub has_on_close : Bool
  pub has_on_half_open : Bool
  pub fired : List Callback

-- The errors that the wrapped function may return, told apart from ErrCircuitOpen.
pub data Error : Type 0 where
  circuit_open : Error
  failed : GoError → Error

unfoldable pub new_circuit_breaker : Option CircuitBreakerPolicy → CircuitBreaker
new_circuit_breaker none = record {
  state = state_closed;
  failures = 0;
  successes = 0;
  last_failure = 0;
  threshold = pos 0;
  success_threshold = pos 0;
  timeout = pos 0;
  enabled = false;
  has_on_state_change = false;
  has_on_open = false;
  has_on_close = false;
  has_on_half_open = false;
  fired = [];
}
new_circuit_breaker (some p) = record {
  state = state_closed;
  failures = 0;
  successes = 0;
  last_failure = 0;
  threshold = p.failure_threshold;
  success_threshold = if ltb_ℤ p.success_threshold (pos 1) then pos 1 else p.success_threshold;
  timeout = p.reset_timeout;
  enabled = p.enabled;
  has_on_state_change = p.has_on_state_change;
  has_on_open = p.has_on_open;
  has_on_close = p.has_on_close;
  has_on_half_open = p.has_on_half_open;
  fired = [];
}

same_state : CircuitState → CircuitState → Bool
same_state state_closed state_closed = true
same_state state_open state_open = true
same_state state_half_open state_half_open = true
same_state _ _ = false

-- The callbacks that the `switch newState` fires.
entered : CircuitBreaker → CircuitState → List Callback
entered cb state_open = if cb.has_on_open then on_open ∷ [] else []
entered cb state_closed = if cb.has_on_close then on_close ∷ [] else []
entered cb state_half_open = if cb.has_on_half_open then on_half_open ∷ [] else []

changed : CircuitBreaker → CircuitState → CircuitState → List Callback
changed cb from to = if cb.has_on_state_change then on_state_change from to ∷ [] else []

reset_successes : CircuitState → ℕ → ℕ
reset_successes state_half_open n = 0
reset_successes _ n = n

unfoldable pub transition_to_locked : CircuitBreaker → CircuitState → CircuitBreaker
unfolding same_state entered changed reset_successes
transition_to_locked cb new_state = if same_state cb.state new_state then cb else record cb {
  state = new_state;
  successes = reset_successes new_state cb.successes;
  fired = cb.fired ++ (changed cb cb.state new_state ++ entered cb new_state);
}

check_open : CircuitBreaker → CircuitState → ℕ → CircuitBreaker × Option Error
unfolding transition_to_locked
check_open cb state_open now =
    if ltb_ℤ cb.timeout (sub_ℕ now cb.last_failure)
    then (transition_to_locked cb state_half_open, none)
    else (cb, some circuit_open)
check_open cb _ now = (cb, none)

unfoldable pub check_state : CircuitBreaker → ℕ → CircuitBreaker × Option Error
unfolding check_open
check_state cb now = check_open cb cb.state now

on_success : CircuitState → CircuitBreaker → CircuitBreaker
unfolding transition_to_locked
on_success state_half_open cb =
    let counted = record cb { successes = cb.successes + 1 } in
    if leb_ℤ cb.success_threshold (pos (cb.successes + 1))
    then record (transition_to_locked counted state_closed) { failures = 0; successes = 0 }
    else counted
on_success state_closed cb = record cb { failures = 0 }
on_success state_open cb = cb

on_failure : CircuitState → CircuitBreaker → CircuitBreaker
unfolding transition_to_locked
on_failure state_half_open cb = transition_to_locked cb state_open
on_failure state_closed cb =
    if leb_ℤ cb.threshold (pos cb.failures) then transition_to_locked cb state_open else cb
on_failure state_open cb = cb

unfoldable pub update_state : CircuitBreaker → Option Error → ℕ → CircuitBreaker
unfolding on_success on_failure
update_state cb none now = on_success cb.state cb
update_state cb (some circuit_open) now = cb
update_state cb (some (failed e)) now =
    on_failure cb.state
      (record cb { failures = cb.failures + 1; successes = 0; last_failure = now })

after_call {ℓ} :
    {W : Type ℓ} → CircuitBreaker → ℕ → W × Option Error → CircuitBreaker × W × Option Error
unfolding update_state
after_call cb later (w, e) = (update_state cb e later, w, e)

execute_checked {ℓ} :
    {W : Type ℓ}
    → (W → W × Option Error)
    → W
    → ℕ
    → CircuitBreaker × Option Error
    → CircuitBreaker × W × Option Error
unfolding after_call
execute_checked fn w later (cb, some e) = (cb, w, some e)
execute_checked fn w later (cb, none) = after_call cb later (fn w)

unguarded {ℓ} : {W : Type ℓ} → CircuitBreaker → W × Option Error → CircuitBreaker × W × Option Error
unguarded cb (w, e) = (cb, w, e)

-- `fn` acts on a world `W`; the clock reads `now` before the call and `later` after it.
unfoldable pub execute {ℓ} :
    {W : Type ℓ}
    → CircuitBreaker
    → (W → W × Option Error)
    → W
    → ℕ
    → ℕ
    → CircuitBreaker × W × Option Error
unfolding unguarded execute_checked check_state
execute cb fn w now later =
    if cb.enabled then execute_checked fn w later (check_state cb now) else unguarded cb (fn w)
