-- ===== src/Breaker/History.antt =====
-- client/breaker.go: the state changes that OnStateChange is told of are the circuit's own history.
use go_psrp.Common.{
  ℕ, ◌≡◌, refl, ◌∙◌, sym, true, none, some, List, [], ◌∷◌, ◌++◌, arith, subst, false, Bool-cases,
  inl, inr, ◌+◌,
}
use go_psrp.Common.Int.{pos, sub_ℕ, ltb_ℤ, leb_ℤ}
use go_psrp.Breaker.{
  same_state, entered, changed, transition_to_locked, check_open, on_success, on_failure,
  circuit_open, failed, CircuitState, state_closed, state_open, state_half_open, Callback,
  on_state_change, on_open, on_close, on_half_open, CircuitBreakerPolicy, CircuitBreaker,
  new_circuit_breaker, check_state, update_state,
}
use go_psrp.Breaker.Invariant.{Section, check, update, section, run}

-- The legal changes.
pub data Edge : CircuitState → CircuitState → Type 0 where
  trip : Edge state_closed state_open
  probe : Edge state_open state_half_open
  relapse : Edge state_half_open state_open
  recover : Edge state_half_open state_closed

-- The changes reported lead by legal steps, each from where the last one ended, from `a` to `b`.
abbrev pub Leads : CircuitState → List Callback → CircuitState → Type 0
Leads a [] b = a ≡ b
Leads a (on_state_change x y ∷ cs) b = (a ≡ x) × Edge x y × Leads y cs b
Leads a (on_open ∷ cs) b = Leads a cs b
Leads a (on_close ∷ cs) b = Leads a cs b
Leads a (on_half_open ∷ cs) b = Leads a cs b

Leads-append :
    (a b c : CircuitState) (cs ds : List Callback)
    → Leads a cs b
    → Leads b ds c
    → Leads a (cs ++ ds) c
Leads-append a b c [] ds p q = subst (λ s. Leads s ds c) (sym p) q
Leads-append a b c (on_state_change x y ∷ cs) ds p q = (p.0, p.1, Leads-append y b c cs ds p.2 q)
Leads-append a b c (on_open ∷ cs) ds p q = Leads-append a b c cs ds p q
Leads-append a b c (on_close ∷ cs) ds p q = Leads-append a b c cs ds p q
Leads-append a b c (on_half_open ∷ cs) ds p q = Leads-append a b c cs ds p q

-- The breaker reports its changes, and the reports so far lead from the closed state to its own.
record Told (cb : CircuitBreaker) : Type 0 where
  on : cb.has_on_state_change ≡ true
  leads : Leads state_closed cb.fired cb.state

reports-Leads :
    (cb : CircuitBreaker) {s to : CircuitState}
    → cb.has_on_state_change ≡ true
    → Edge s to
    → Leads s (changed cb s to ++ entered cb to) to
unfolding changed entered
reports-Leads cb on trip = ground (arith, trip)
reports-Leads cb on probe = ground (arith, probe)
reports-Leads cb on relapse = ground (arith, relapse)
reports-Leads cb on recover = ground (arith, recover)

different : {s to : CircuitState} → Edge s to → same_state s to ≡ false
unfolding same_state
different trip = refl
different probe = refl
different relapse = refl
different recover = refl

transition_to_locked-Told :
    (cb : CircuitBreaker) (to : CircuitState)
    → Edge cb.state to
    → Told cb
    → Told (transition_to_locked cb to)
unfolding transition_to_locked
transition_to_locked-Told cb to e t = rw (different e) (record {
  on = t.on;
  leads =
      Leads-append state_closed cb.state to cb.fired (changed cb cb.state to ++ entered cb to)
        t.leads (reports-Leads cb t.on e);
})

check_open-Told :
    (cb : CircuitBreaker) (s : CircuitState) (now : ℕ)
    → cb.state ≡ s
    → Told cb
    → Told (check_open cb s now).0
unfolding check_open
check_open-Told cb state_open now h t =
    elim (Bool-cases (ltb_ℤ cb.timeout (sub_ℕ now cb.last_failure))) [
      | inl late ↦ rw late (transition_to_locked-Told cb state_half_open (rw h probe) t)
      | inr early ↦ rw early t
    ]
check_open-Told cb _ now h t = t

-- Fields that are not reported on do not matter.
Told-same :
    (cb cb' : CircuitBreaker)
    → cb'.has_on_state_change ≡ cb.has_on_state_change
    → cb'.fired ≡ cb.fired
    → cb'.state ≡ cb.state
    → Told cb
    → Told cb'
Told-same cb cb' p q r t = record { on = p ∙ t.on; leads = rw (q, r) t.leads }

on_success-Told :
    (cb : CircuitBreaker) (s : CircuitState) → cb.state ≡ s → Told cb → Told (on_success s cb)
unfolding on_success
on_success-Told cb state_half_open h t =
    let counted = record cb { successes = cb.successes + 1 } in
    elim (Bool-cases (leb_ℤ cb.success_threshold (pos (cb.successes + 1)))) [
      | inl enough ↦ rw enough (
          Told-same (transition_to_locked counted state_closed) _ refl refl refl (
            transition_to_locked-Told counted state_closed (rw h recover)
              (Told-same cb counted refl refl refl t)))
      | inr more ↦ rw more (Told-same cb counted refl refl refl t)
    ]
on_success-Told cb state_closed h t = Told-same cb _ refl refl refl t
on_success-Told cb state_open h t = t

on_failure-Told :
    (cb : CircuitBreaker) (s : CircuitState) → cb.state ≡ s → Told cb → Told (on_failure s cb)
unfolding on_failure
on_failure-Told cb state_half_open h t = transition_to_locked-Told cb state_open (rw h relapse) t
on_failure-Told cb state_closed h t = elim (Bool-cases (leb_ℤ cb.threshold (pos cb.failures))) [
  | inl reached ↦ rw reached (transition_to_locked-Told cb state_open (rw h trip) t)
  | inr short ↦ rw short t
]
on_failure-Told cb state_open h t = t

section-Told : (cb : CircuitBreaker) (s : Section) → Told cb → Told (section cb s)
unfolding section check_state update_state
section-Told cb (check now) t = check_open-Told cb cb.state now refl t
section-Told cb (update none now) t = on_success-Told cb cb.state refl t
section-Told cb (update (some circuit_open) now) t = t
section-Told cb (update (some (failed e)) now) t =
    on_failure-Told (record cb { failures = cb.failures + 1; successes = 0; last_failure = now })
      cb.state refl (Told-same cb _ refl refl refl t)

run-Told : (cb : CircuitBreaker) (ss : List Section) → Told cb → Told (run cb ss)
unfolding run
run-Told cb [] t = t
run-Told cb (s ∷ ss) t = run-Told (section cb s) ss (section-Told cb s t)

-- With OnStateChange set, the changes that a breaker reports over any order of its locked sections
-- are the circuit's whole history: they begin at the closed state, each begins where the one before
-- ended, the last ends at the present state, and each is one of closed to open, open to half-open,
-- half-open to open and half-open to closed.
pub run-Leads :
    (p : CircuitBreakerPolicy) (ss : List Section)
    → p.has_on_state_change ≡ true
    → let cb = run (new_circuit_breaker (some p)) ss in Leads state_closed cb.fired cb.state
run-Leads p ss on = (run-Told _ ss (start on)).leads
  where
    start : p.has_on_state_change ≡ true → Told (new_circuit_breaker (some p))
    start h = unfold new_circuit_breaker in record { on = h; leads = refl }
