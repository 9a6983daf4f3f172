-- ===== src/Session/Closing.antt =====
-- client/client.go: what a closed client does, and the flags after a Reconnect.
use go_psrp.Common.{
  ℕ, Bool, Option, none, some, ◌≡◌, refl, true, false, ◌||◌, arith, Bool-cases, inl, inr,
}
use go_psrp.Common.State.{ok, is_ok}
use go_psrp.Common.Text.{Text, codes}
use go_psrp.Common.Errors.{message}
use go_psrp.Breaker
use go_psrp.Breaker.{CircuitBreaker, circuit_open}
use go_psrp.Breaker.Calls.{blocks, execute_fails_fast}
use go_psrp.Session.Interface.{Services}
use go_psrp.Session.{
  Client, connect_internal, connected_by, connect, checked, put_world, tried, effect, fresh,
}
use go_psrp.Session.Ending.{
  CloseStrategy, force, graceful, Closing, captured, mark_closed, end_close, close_with_strategy,
  reconnect, existing_backend,
}

-- Whether a breaker, if there is one, lets no call through.
abbrev pub blocked : Option CircuitBreaker → ℕ → Bool
blocked none now = false
blocked (some cb) now = blocks cb now

abbrev pub closed_error : Bool → Breaker.Error
closed_error true = circuit_open
closed_error false = Breaker.failed (message (codes "client is closed"))

module _ (services : Services) where
  open services use {Backend, Pool}

  end_close-closed :
      (s : CloseStrategy) (k : Closing services) (c : Client services)
      → (end_close services s k c).0.closed ≡ c.closed
  unfolding end_close tried checked put_world
  end_close-closed force k c = refl
  end_close-closed graceful k c = ground arith

  close_sets :
      (s : CloseStrategy) (c : Client services) → (close_with_strategy services s c).0.closed ≡ true
  unfolding close_with_strategy mark_closed
  close_sets s c = ground (arith, end_close-closed s (captured services c) (mark_closed services c))

  connect_internal_closed :
      (d : Client services)
      → d.closed ≡ true
      → connected_by services (connect_internal services d)
        ≡ (d, some (Breaker.failed (message (codes "client is closed"))))
  unfolding connect_internal connected_by
  connect_internal_closed d e = ground (arith, e)

  -- What Connect does to a closed client.
  abbrev Refuses : Option CircuitBreaker → ℕ → ℕ → Client services → Type 0
  Refuses b now later d =
      ((connect services b now later d).1 ≡ d)
      × ((connect services b now later d).2 ≡ some (closed_error (blocked b now)))

  connect-Refuses :
      (b : Option CircuitBreaker) (now later : ℕ) (d : Client services)
      → d.closed ≡ true
      → Refuses b now later d
  unfolding connect
  connect-Refuses none now later d e = rw (connect_internal_closed d e) (refl, refl)
  connect-Refuses (some cb) now later d e =
      rw
        (
          execute_fails_fast cb (λ c. connected_by services (connect_internal services c)) d now
              later,
          connect_internal_closed d e,
        )
        (elim (Bool-cases (blocks cb now)) [
          | inl stopped ↦ rw stopped (refl, refl)
          | inr through ↦ rw through (refl, refl)
        ])

  close_again :
      (t : CloseStrategy) (d : Client services)
      → d.closed ≡ true
      → close_with_strategy services t d ≡ (d, ok tt)
  unfolding close_with_strategy
  close_again t d e = ground (arith, e)

  -- After a close of either strategy, whatever the services answer: another close of either strategy
  -- succeeds and does nothing; and a Connect, with a circuit breaker in any state or none, does
  -- nothing to the client and fails, with ErrCircuitOpen if the breaker blocks it and with 'client is
  -- closed' otherwise.
  pub close_twice :
      (s t : CloseStrategy) (b : Option CircuitBreaker) (now later : ℕ) (c : Client services)
      → (let d = (close_with_strategy services s c).0 in
          (close_with_strategy services t d ≡ (d, ok tt))
          × ((connect services b now later d).1 ≡ d)
          × ((connect services b now later d).2 ≡ some (closed_error (blocked b now))))
  close_twice s t b now later c =
      let d = (close_with_strategy services s c).0 in
      let r = connect-Refuses b now later d (close_sets s c) in
      (close_again t d (close_sets s c), r.0, r.1)

  -- A Reconnect that succeeds makes even a closed client connected, which stays closed; one that fails
  -- leaves both flags as they are.
  pub reconnect_flags :
      (id : Text) (c : Client services)
      → ((reconnect services id c).0.closed ≡ c.closed)
        × ((reconnect services id c).0.connected
            ≡ (is_ok (reconnect services id c).1 || c.connected))
  unfolding reconnect existing_backend tried fresh effect checked put_world
  reconnect_flags id c = ground arith
