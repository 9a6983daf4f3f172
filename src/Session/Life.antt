-- ===== src/Session/Life.antt =====
-- client/client.go: what holds of a client through its life.
use go_psrp.Common.{
  ℕ, subst, sym, if◌then◌else◌, ◌≡◌, true, false, Option, none, some, is_some, List, [], ◌∷◌, arith,
}
use go_psrp.Common.Int.{ℤ, pos_part}
use go_psrp.Common.State.{Result, ok, err, continue}
use go_psrp.Common.Text.{Text}
use go_psrp.Common.Errors.{GoError}
use go_psrp.Breaker.{CircuitBreaker}
use go_psrp.Breaker.Calls.{execute_fails_fast}
use go_psrp.Semaphore.{PoolSemaphore, new_pool_semaphore}
use go_psrp.Session.Interface.{Services}
use go_psrp.Session.{
  Config, reconnect_runspaces, Client, new_client, connect_internal, connected_by, connect,
  put_world, checked, tried, effect, fresh, open_session, finish, set_up, make_backend, prepare,
  identified,
}
use go_psrp.Session.Ending.{
  CloseStrategy, force, graceful, Closing, captured, mark_closed, end_close, close_with_strategy,
  disconnect, reconnect, existing_backend,
}

module _ (services : Services) where
  open services use {World, Backend, Pool}

  -- What a caller starts: a Connect, with the circuit breaker and its clock's readings; a whole close; or
  -- the two parts of a close, between which other operations may run: the second has what
  -- any first part read.
  pub data Operation : Type 0 where
    connecting : Option CircuitBreaker → ℕ → ℕ → Operation
    closing : CloseStrategy → Operation
    close_begins : Operation
    close_ends : CloseStrategy → Closing services → Operation
    disconnecting : Operation
    reconnecting : Text → Operation

  unfoldable pub perform : Operation → Client services → Client services
  perform (connecting b now later) c = (connect services b now later c).1
  perform (closing s) c = (close_with_strategy services s c).0
  perform close_begins c = if c.closed then c else mark_closed services c
  perform (close_ends s k) c = (end_close services s k c).0
  perform disconnecting c = (disconnect services c).0
  perform (reconnecting id) c = (reconnect services id c).0

  unfoldable pub run : List Operation → Client services → Client services
  run [] c = c
  run (o ∷ os) c = run os (perform o c)

  -- The semaphore that New makes, whose slots are MaxRunspaces, and one at least.
  abbrev pub Sized : Config → Option PoolSemaphore → Type 0
  Sized g none = ⊥
  Sized g (some s) = s.max_size ≡ pos_part (reconnect_runspaces g)

  pub record IsUsable (g : Config) (c : Client services) : Type 0 where
    pub same_config : c.config ≡ g
    pub has_backend : c.connected ≡ true → is_some c.backend ≡ true
    pub has_pool : c.connected ≡ true → is_some c.pool ≡ true
    pub ended : c.closed ≡ true → (c.keepalive ≡ none) × (c.manager ≡ none)
    pub sized : Sized c.config c.semaphore

  new-Sized :
      (g : Config) (queue timeout : ℤ)
      → (new_pool_semaphore g.max_runspaces queue timeout).max_size
        ≡ pos_part (reconnect_runspaces g)
  unfolding new_pool_semaphore reconnect_runspaces
  new-Sized g queue timeout = ground arith

  end-IsUsable :
      {g : Config} (s : CloseStrategy) (k : Closing services) (c : Client services)
      → IsUsable g c
      → IsUsable g (end_close services s k c).0
  unfolding end_close put_world checked tried
  end-IsUsable force k c i = ground (arith, i)
  end-IsUsable graceful k c i = ground (arith, i)

  mark-IsUsable :
      {g : Config} (c : Client services) → IsUsable g c → IsUsable g (mark_closed services c)
  unfolding mark_closed
  mark-IsUsable c i = ground (arith, i)

  begin-IsUsable :
      {g : Config} (c : Client services)
      → IsUsable g c
      → IsUsable g (if c.closed then c else mark_closed services c)
  begin-IsUsable c i = ground (arith, i, mark-IsUsable c i)

  close-IsUsable :
      {g : Config} (s : CloseStrategy) (c : Client services)
      → IsUsable g c
      → IsUsable g (close_with_strategy services s c).0
  unfolding close_with_strategy
  close-IsUsable s c i =
      ground (
        arith,
        i,
        end-IsUsable s (captured services c) (mark_closed services c) (mark-IsUsable c i),
      )

  disconnect-IsUsable :
      {g : Config} (c : Client services) → IsUsable g c → IsUsable g (disconnect services c).0
  unfolding disconnect tried
  disconnect-IsUsable c i = ground (arith, i)

  reconnect-IsUsable :
      {g : Config} (id : Text) (c : Client services)
      → IsUsable g c
      → IsUsable g (reconnect services id c).0
  unfolding reconnect existing_backend tried fresh effect checked put_world
  reconnect-IsUsable id c i = ground (arith, i)

  -- What holds between the steps of a Connect.
  record IsOpening (g : Config) (c : Client services) : Type 0 where
    usable : IsUsable g c
    not_closed : c.closed ≡ false
    not_connected : c.connected ≡ false

  made-IsOpening :
      {g : Config} (c : Client services) → IsOpening g c → IsOpening g (make_backend services c).0
  unfolding make_backend fresh put_world
  made-IsOpening c i = ground (arith, i)

  -- The state after set_up.
  SetUp : Config → Client services × Result GoError (Backend × Pool) → Type 0
  SetUp g (c, err e) = IsOpening g c
  SetUp g (c, ok (b, p)) = IsOpening g c × ((is_some c.backend ≡ true) × (is_some c.pool ≡ true))

  prepare-SetUp :
      {g : Config} (r : Client services × Result GoError Backend)
      → IsOpening g r.0
      → SetUp g (continue r (prepare services))
  unfolding prepare fresh effect checked put_world SetUp
  prepare-SetUp (c, err e) i = i
  prepare-SetUp (c, ok b) i = ground (arith, i)

  set_up-SetUp : {g : Config} (c : Client services) → IsOpening g c → SetUp g (set_up services c)
  unfolding set_up identified
  set_up-SetUp c i =
      prepare-SetUp (make_backend services (identified services c))
        (made-IsOpening (identified services c) (ground (arith, i)))

  finish-IsUsable :
      {g : Config} (r : Client services × Result GoError (Backend × Pool))
      → SetUp g r
      → IsUsable g (continue r (finish services)).0
  unfolding finish SetUp checked put_world
  finish-IsUsable (c, err e) i = i.usable
  finish-IsUsable (c, ok (b, p)) i = ground (arith, i)

  open-IsUsable :
      {g : Config} (c : Client services)
      → IsUsable g c
      → c.closed ≡ false
      → c.connected ≡ false
      → IsUsable g (open_session services c).0
  unfolding open_session
  open-IsUsable c i e f =
      finish-IsUsable (set_up services c)
        (set_up-SetUp c (record { usable = i; not_closed = e; not_connected = f }))

  connect-IsUsable :
      {g : Config} (c : Client services) → IsUsable g c → IsUsable g (connect_internal services c).0
  unfolding connect_internal
  connect-IsUsable c i = ground (arith, open-IsUsable c i)

  by-IsUsable :
      {g : Config} (r : Client services × Result GoError (Unit {0}))
      → IsUsable g r.0
      → IsUsable g (connected_by services r).0
  unfolding connected_by
  by-IsUsable (c, ok u) i = i
  by-IsUsable (c, err e) i = i

  guarded-IsUsable :
      {g : Config} (b : Option CircuitBreaker) (now later : ℕ) (c : Client services)
      → IsUsable g c
      → IsUsable g (connect services b now later c).1
  unfolding connect
  guarded-IsUsable none now later c i =
      by-IsUsable (connect_internal services c) (connect-IsUsable c i)
  guarded-IsUsable {g} (some cb) now later c i =
      let tried_once = by-IsUsable (connect_internal services c) (connect-IsUsable c i) in
      subst (λ r. IsUsable g r.1)
        (sym (
          execute_fails_fast cb (λ d. connected_by services (connect_internal services d)) c now
            later))
        (ground (arith, i, tried_once))

  perform-IsUsable :
      {g : Config} (o : Operation) (c : Client services) → IsUsable g c → IsUsable g (perform o c)
  unfolding perform
  perform-IsUsable (connecting b now later) c i = guarded-IsUsable b now later c i
  perform-IsUsable (closing s) c i = close-IsUsable s c i
  perform-IsUsable close_begins c i = begin-IsUsable c i
  perform-IsUsable (close_ends s k) c i = end-IsUsable s k c i
  perform-IsUsable disconnecting c i = disconnect-IsUsable c i
  perform-IsUsable (reconnecting id) c i = reconnect-IsUsable id c i

  run-IsUsable :
      {g : Config} (os : List Operation) (c : Client services)
      → IsUsable g c
      → IsUsable g (run os c)
  unfolding run
  run-IsUsable [] c i = i
  run-IsUsable (o ∷ os) c i = run-IsUsable os (perform o c) (perform-IsUsable o c i)

  -- After any connects, closes, disconnects and reconnects of a new client, also while closes have
  -- begun and not ended, whatever the services and the circuit breaker answer: a connected client has
  -- a backend and a pool; there is a semaphore, with as many slots as Reconnect asks
  -- runspaces for (MaxRunspaces, and one at least); and a closed client has given up its keepalive
  -- loop and its reconnect manager, whose fields are nil. (Nothing is said of a manager that a later
  -- Connect has overwritten.)
  pub run-new-IsUsable :
      (g : Config) (w : World) (os : List Operation) → IsUsable g (run os (new_client services g w))
  unfolding new_client
  run-new-IsUsable g w os =
      run-IsUsable os (new_client services g w)
        (ground (arith, new-Sized g g.max_queue_size g.timeout))
