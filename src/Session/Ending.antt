-- ===== src/Session/Ending.antt =====
-- client/client.go: CloseWithStrategy, Disconnect and Reconnect.
use go_psrp.Common.{Bool, Option, true, false, none, some, [], if◌then◌else◌}
use go_psrp.Common.State.{Result, ok, err, ◌>>=◌, ◌>>◌, modify}
use go_psrp.Common.Text.{Text, codes}
use go_psrp.Common.Errors.{GoError, message}
use go_psrp.Session.Interface.{Services}
use go_psrp.Session.{
  wsman, hv_socket, build_resource_uri, reconnect_runspaces, Client, Step, fresh, checked, tried,
  effect, connected_with, ensure_semaphore,
}

pub data CloseStrategy : Type 0 where
  graceful force : CloseStrategy

module _ (services : Services) where
  open services use {
    World, Backend, Pool, is_wsman, new_wsman_backend, set_transport_context, new_pool,
    set_max_runspaces, set_message_id, close_pool, disconnect_pool, close_backend, reattach,
    disconnect_backend, Keepalive, end_keepalive, wait_keepalives, Manager, stop_manager,
  }

  ignored :
      Client services × Result GoError (Unit {0}) → Client services × Result GoError (Unit {0})
  ignored (c, r) = (c, ok tt)

  -- What a close reads while it holds the mutex.
  pub record Closing : Type 0 where
    pub pool : Option Pool
    pub backend : Option Backend
    pub connected : Bool
    pub manager : Option Manager

  pub captured : Client services → Closing
  captured c = record {
    pool = c.pool;
    backend = c.backend;
    connected = c.connected;
    manager = c.manager;
  }

  signalled : Option Keepalive → World → World
  signalled none w = w
  signalled (some k) w = end_keepalive k w

  -- The part under the mutex of a client that is not closed.
  unfoldable pub mark_closed : Client services → Client services
  unfolding signalled
  mark_closed c = record c {
    closed = true;
    keepalive = none;
    manager = none;
    world = signalled c.keepalive c.world;
  }

  manager_stopped : Option Manager → World → World
  manager_stopped none w = w
  manager_stopped (some m) w = stop_manager m w

  close_the_pool : Closing → Step services (Unit {0})
  unfolding tried ignored
  close_the_pool k c = elim k.pool [
    | none ↦ (c, ok tt)
    | some p ↦ ignored (tried services (close_pool p) c)
  ]

  close_the_backend : Closing → Step services (Unit {0})
  unfolding checked
  close_the_backend k c = elim k.backend [
    | none ↦ (c, ok tt)
    | some b ↦
        if k.connected
        then checked services (codes "close backend: ") (close_backend b) c
        else (c, ok tt)
  ]

  goroutines_ended : Closing → Client services → Client services
  unfolding manager_stopped
  goroutines_ended k c = record c { world = manager_stopped k.manager (wait_keepalives c.world) }

  -- The part without the mutex, which other methods may run beside.
  unfoldable pub end_close : CloseStrategy → Closing → Step services (Unit {0})
  unfolding goroutines_ended close_the_pool close_the_backend
  end_close force k c = (goroutines_ended k c, ok tt)
  end_close graceful k c = (close_the_pool k >> close_the_backend k) (goroutines_ended k c)

  unfoldable pub close_with_strategy : CloseStrategy → Step services (Unit {0})
  unfolding captured mark_closed end_close
  close_with_strategy s c =
      if c.closed then (c, ok tt) else end_close s (captured c) (mark_closed c)

  lost : Client services → Client services
  lost c = record c { connected = false }

  disconnect_shared : Step services (Unit {0})
  unfolding tried lost
  disconnect_shared c = elim c.pool [
    | none ↦
        (c, err (message (codes "disconnect not supported on this transport or not connected")))
    | some p ↦ (tried services (disconnect_pool p) >> modify lost) c
  ]

  unfoldable pub disconnect : Step services (Unit {0})
  unfolding disconnect_shared tried lost
  disconnect c = elim c.backend [
    | none ↦ disconnect_shared c
    | some b ↦
        if is_wsman b
        then (tried services (disconnect_backend b) >> modify lost) c
        else disconnect_shared c
  ]

  -- The backend there is, or a new one for WSMan.
  unfoldable pub existing_backend : Step services Backend
  existing_backend c = elim c.backend [
    | some b ↦ (c, ok b)
    | none ↦ elim c.config.transport [
      | hv_socket ↦ (c, err (message (codes "reconnect not supported on HvSocket transport")))
      | wsman ↦
          if c.has_wsman
          then fresh services (new_wsman_backend (build_resource_uri c.config) []) c
          else (c, err (message (codes "wsman client not initialized")))
    ]
  ]

  unfoldable pub reconnect : Text → Step services (Unit {0})
  unfolding existing_backend effect checked connected_with ensure_semaphore
  reconnect shell_id = do
    b ← existing_backend
    modify (λ c. record c { backend = some b })
    effect services (set_transport_context b)
    p ← (λ c. fresh services (new_pool b c.pool_id) c)
    modify (λ c. record c {
      pool = some p;
      world = set_max_runspaces (reconnect_runspaces c.config) p c.world;
    })
    checked services (codes "backend reattach: ") (reattach b p shell_id)
    modify (connected_with services p)
    modify (ensure_semaphore services)
