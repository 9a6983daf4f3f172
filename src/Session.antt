-- ===== src/Session.antt =====
-- client/client.go: the life of a client: Connect, CloseWithStrategy, Disconnect, Reconnect and the
-- message counter. The backend, the runspace pool and the goroutines that are started are operations
-- on a world; a part of a method that holds the mutex is one step. Logging is left out.
pub mod Settings
pub mod Interface
pub mod Ending
pub mod Life
pub mod Closing
mod Examples
use go_psrp.Common.{
  ℕ, ◌+◌, Bool, true, false, ◌&&◌, ◌||◌, not, Option, none, some, is_some, List, [], ◌∷◌, ◌++◌,
  if◌then◌else◌,
}
use go_psrp.Common.Int.{ℤ, pos, is_zero_ℤ, ltb_ℤ, leb_ℤ}
use go_psrp.Common.State.{Result, ok, err, M, continue, ◌>>=◌, ◌>>◌, pure, throw, modify}
use go_psrp.Common.Text.{Text, codes, is_empty, contains}
use go_psrp.Common.Errors.{GoError, message, wrap}
use go_psrp.Breaker
use go_psrp.Breaker.{CircuitBreaker}
use go_psrp.Semaphore.{PoolSemaphore, new_pool_semaphore}
use Interface.{Services}
unfoldable pub use Settings.*

module _ (services : Services) where
  open services use {
    World, Backend, Pool, is_wsman, supports_psrp_keepalive, new_uuid, new_hv_socket_backend,
    new_wsman_backend, connect_backend, set_transport_context, new_pool, set_max_runspaces,
    init_backend, start_dispatch, set_message_id, close_pool, disconnect_pool, close_backend,
    reattach, disconnect_backend, Keepalive, start_keepalive, Manager, start_manager,
  }

  -- `has_wsman` is c.wsman != nil; `keepalive` and `manager` are keepAliveDone and reconnectMgr. The
  -- circuit breaker is an argument of Connect.
  pub record Client : Type 0 where
    pub config : Config
    pub has_wsman : Bool
    pub closed : Bool
    pub connected : Bool
    pub backend : Option Backend
    pub pool : Option Pool
    pub pool_id : ℕ
    pub call_id : ℕ
    pub semaphore : Option PoolSemaphore
    pub keepalive : Option Keepalive
    pub manager : Option Manager
    pub world : World

  unfoldable pub new_client : Config → World → Client
  new_client config world = record {
    config = config;
    has_wsman = elim config.transport [ wsman ↦ true | hv_socket ↦ false ];
    closed = false;
    connected = false;
    backend = none;
    pool = none;
    pool_id = 0;
    call_id = 0;
    semaphore = some (new_pool_semaphore config.max_runspaces config.max_queue_size config.timeout);
    keepalive = none;
    manager = none;
    world = world;
  }

  abbrev pub Step : Type 0 → Type 0
  Step A = M Client GoError A

  -- A call that may fail, with the text that wraps its error.
  unfoldable pub put_world :
      {A : Type 0} → Text → Client → World × Result GoError A → Client × Result GoError A
  put_world text c (w, ok a) = (record c { world = w }, ok a)
  put_world text c (w, err e) = (record c { world = w }, err (wrap text e))

  abbrev pub failing : World × Option GoError → World × Result GoError (Unit {0})
  failing (w, none) = (w, ok tt)
  failing (w, some e) = (w, err e)

  unfoldable pub checked : Text → (World → World × Option GoError) → Step (Unit {0})
  unfolding put_world
  checked text f c = put_world text c (failing (f c.world))

  unfoldable pub tried : (World → World × Option GoError) → Step (Unit {0})
  tried f c = let (w, r) = failing (f c.world) in (record c { world = w }, r)

  unfoldable pub effect : (World → World) → Step (Unit {0})
  effect f = modify (λ c. record c { world = f c.world })

  unfoldable pub fresh : {A : Type 0} → (World → World × A) → Step A
  fresh f c = let (w, a) = f c.world in (record c { world = w }, ok a)

  unfoldable pub ensure_semaphore : Client → Client
  ensure_semaphore c = elim c.semaphore [
    | some s ↦ c
    | none ↦ record c {
      semaphore = some (
          new_pool_semaphore (connect_runspaces c.config) c.config.max_queue_size c.config.timeout);
    }
  ]

  -- backendFactory, a hook for tests, is nil.
  unfoldable pub make_backend : Step Backend
  make_backend c = elim c.config.transport [
    | hv_socket ↦ fresh (new_hv_socket_backend c.pool_id) c
    | wsman ↦
        if c.has_wsman
        then fresh (new_wsman_backend (build_resource_uri c.config) c.config.idle_timeout) c
        else (c, err (message (codes "wsman client not initialized")))
  ]

  -- Steps 2 to 4 of connectInternal: the transport, the pool and the semaphore.
  unfoldable pub prepare : Backend → Step (Backend × Pool)
  unfolding checked effect ensure_semaphore
  prepare b = do
    modify (λ c. record c { backend = some b })
    checked (codes "connect backend: ") (connect_backend b)
    effect (set_transport_context b)
    p ← (λ c. fresh (new_pool b c.pool_id) c)
    modify (λ c. record c {
      pool = some p;
      world = set_max_runspaces (connect_runspaces c.config) p c.world;
    })
    modify ensure_semaphore
    pure (b, p)

  unfoldable pub identified : Client → Client
  identified c = let (w, id) = new_uuid c.world in record c { pool_id = id; world = w }

  unfoldable pub set_up : Step (Backend × Pool)
  unfolding make_backend identified prepare
  set_up c = (make_backend >>= prepare) (identified c)

  -- The dispatch loop of a shared transport.
  dispatching : Backend → Pool → Client → Client
  dispatching b p c =
      if supports_psrp_keepalive b then record c { world = start_dispatch p c.world } else c

  unfoldable pub connected_with : Pool → Client → Client
  connected_with p c = record c {
    connected = true;
    call_id = 2;
    world = set_message_id 2 p c.world;
  }

  keeping_alive : Client → Client
  keeping_alive c =
      let (w, k) = start_keepalive c.world in record c { keepalive = some k; world = w }

  -- One that is there already goes on.
  start_keepalive_locked : Backend → Client → Client
  unfolding keeping_alive
  start_keepalive_locked b c =
      if ltb_ℤ (pos 0) c.config.keep_alive_interval
        && (supports_psrp_keepalive b && not (is_some c.keepalive))
      then keeping_alive c
      else c

  managed : Client → Client
  managed c = let (w, m) = start_manager c.world in record c { manager = some m; world = w }

  -- One that is there already is overwritten, and not stopped.
  start_reconnect_manager : Client → Client
  unfolding managed
  start_reconnect_manager c = if c.config.reconnect_enabled then managed c else c

  -- Steps 5 and 6 of connectInternal, and what follows them.
  unfoldable pub finish : Backend × Pool → Step (Unit {0})
  unfolding checked dispatching connected_with start_keepalive_locked start_reconnect_manager
  finish (b, p) = do
    checked (codes "init backend: ") (init_backend b p)
    modify (dispatching b p)
    modify (connected_with p)
    modify (start_keepalive_locked b)
    modify start_reconnect_manager

  unfoldable pub open_session : Step (Unit {0})
  unfolding set_up finish
  open_session = set_up >>= finish

  unfoldable pub connect_internal : Step (Unit {0})
  unfolding open_session
  connect_internal c =
      if c.closed
      then (c, err (message (codes "client is closed")))
      else if c.connected
      then (c, ok tt)
      else open_session c

  connected_by : Client × Result GoError (Unit {0}) → Client × Option Breaker.Error
  connected_by (c, ok u) = (c, none)
  connected_by (c, err e) = (c, some (Breaker.failed e))

  -- Connect: connectInternal inside the circuit breaker, if there is one; the breaker's clock reads
  -- `now` before it and `later` after it.
  unfoldable pub connect :
      Option CircuitBreaker → ℕ → ℕ → Client → Option CircuitBreaker × Client × Option Breaker.Error
  unfolding connect_internal connected_by
  connect none now later c = let (d, e) = connected_by (connect_internal c) in (none, d, e)
  connect (some cb) now later c =
      let (cb', d, e) = Breaker.execute cb (λ d. connected_by (connect_internal d)) c now later in
      (some cb', d, e)
