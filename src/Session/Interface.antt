-- ===== src/Session/Interface.antt =====
-- What the client calls: the backend of package powershell (its interface), the runspace pool of the
-- PSRP core library, the keepalive loop and the reconnect
-- manager.
use go_psrp.Common.{ℕ, Bool, Option}
use go_psrp.Common.Int.{ℤ}
use go_psrp.Common.Text.{Text}
use go_psrp.Common.Errors.{GoError}

pub record Services : Type 1 where
  pub World : Type 0
  pub Backend : Type 0
  pub Pool : Type 0
  -- The assertion that the backend is a *WSManBackend.
  pub is_wsman : Backend → Bool
  pub supports_psrp_keepalive : Backend → Bool
  pub new_uuid : World → World × ℕ
  pub new_hv_socket_backend : ℕ → World → World × Backend
  -- With the resource URI and the idle timeout, if it is not empty.
  pub new_wsman_backend : Text → Text → World → World × Backend
  pub connect_backend : Backend → World → World × Option GoError
  pub set_transport_context : Backend → World → World
  -- runspace.New with the backend's transport and the pool's identifier.
  pub new_pool : Backend → ℕ → World → World × Pool
  pub set_max_runspaces : ℤ → Pool → World → World
  pub init_backend : Backend → Pool → World → World × Option GoError
  -- StartDispatchLoop, InitializeAvailabilityIfNeeded and WaitForAvailability.
  pub start_dispatch : Pool → World → World
  pub set_message_id : ℕ → Pool → World → World
  pub close_pool : Pool → World → World × Option GoError
  pub disconnect_pool : Pool → World → World × Option GoError
  pub close_backend : Backend → World → World × Option GoError
  pub reattach : Backend → Pool → Text → World → World × Option GoError
  pub disconnect_backend : Backend → World → World × Option GoError
  -- A keepalive loop that is started, and the close of the channel that ends it, with the wait for all
  -- of them; a new reconnect manager that is started, and its stop.
  pub Keepalive : Type 0
  pub start_keepalive : World → World × Keepalive
  pub end_keepalive : Keepalive → World → World
  pub wait_keepalives : World → World
  pub Manager : Type 0
  pub start_manager : World → World × Manager
  pub stop_manager : Manager → World → World
