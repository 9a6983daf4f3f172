-- ===== src/Powershell/Backend.antt =====
-- powershell/runspace.go: WsManBackend, a runspace pool over WSMan. A method acts on the backend and
-- the world; `options` is the map that Create is given, as a list.
pub mod Lifecycle
use go_psrp.Common.{
  ℕ, Bool, true, false, ◌&&◌, not, Option, none, some, List, [], ◌∷◌, ◌++◌, if◌then◌else◌,
}
use go_psrp.Common.Text.{Text, codes, text_eq, is_empty, equal_fold, base64}
use go_psrp.Common.State.{Result, ok, err, M, ◌>>=◌, ◌>>◌, continue, modify, throw, pure}
use go_psrp.Powershell.Remote.{Remote, EndpointReference}
use go_psrp.Powershell.Transport.{
  WsManTransport, new_wsman_transport, configure, set_context, is_nil, signal_terminate,
}

abbrev pub resource_uri_powershell : Text
resource_uri_powershell = codes "http://schemas.microsoft.com/powershell/Microsoft.PowerShell"

-- The value of the first selector whose name fits, or what was there before.
unfoldable pub first_selector : (Text → Bool) → List (Text × Text) → Text → Text
first_selector fits [] old = old
first_selector fits ((name, value) ∷ ss) old =
    if fits name then value else first_selector fits ss old

abbrev pub shell_epr : Text → EndpointReference
shell_epr id = record {
  address = [];
  resource_uri = resource_uri_powershell;
  selectors = (codes "ShellId", id) ∷ [];
}

module _ (remote : Remote) where
  open remote use {
    World, Context, Error, create, delete, command, signal, disconnect, reconnect, connect,
    with_timeout, get_handshake_fragments, get_connect_handshake_fragments, open_pool,
    process_connect_response, resume_opened, skip_invoke_send, pipeline_id,
  }

  pub record WsManBackend : Type 0 where
    pub epr : Option EndpointReference
    pub shell_id : Text
    pub opened : Bool
    pub closed : Bool
    pub transport : WsManTransport remote
    pub idle_timeout : Text
    pub resource_uri : Text

  pub data BackendError : Type 0 where
    pool_not_opened pool_closed : BackendError
    remote_failed : Error → BackendError

  abbrev pub State : Type 0
  State = WsManBackend × World

  abbrev pub Method : Type 0 → Type 0
  Method A = M State BackendError A

  unfoldable pub new_wsman_backend : WsManTransport remote → WsManBackend
  new_wsman_backend transport = record {
    epr = none;
    shell_id = [];
    opened = false;
    closed = false;
    transport = transport;
    idle_timeout = [];
    resource_uri = resource_uri_powershell;
  }

  unfoldable pub set_epr : EndpointReference → WsManBackend → WsManBackend
  unfolding first_selector
  set_epr epr b = record b {
    epr = some epr;
    shell_id = first_selector (λ name. equal_fold name (codes "ShellId")) epr.selectors b.shell_id;
  }

  unfoldable pub set_opened : Bool → WsManBackend → WsManBackend
  set_opened opened b = record b { opened = opened }

  unfoldable pub set_resource_uri : Text → WsManBackend → WsManBackend
  set_resource_uri uri b = record b { resource_uri = uri }

  unfoldable pub set_idle_timeout : Text → WsManBackend → WsManBackend
  set_idle_timeout duration b = record b { idle_timeout = duration }

  -- A call that leaves the backend alone.
  lifted : {A : Type 0} → WsManBackend → World × Result Error A → State × Result BackendError A
  lifted b (w, ok a) = ((b, w), ok a)
  lifted b (w, err e) = ((b, w), err (remote_failed e))

  call : {A : Type 0} → (WsManBackend → World → World × Result Error A) → Method A
  unfolding lifted
  call f (b, w) = lifted b (f b w)

  unfoldable pub creation_options : WsManBackend → List (Text × Text)
  creation_options b =
      (codes "protocolversion", codes "2.3")
      ∷ ((if is_empty b.idle_timeout then [] else (codes "IdleTimeout", b.idle_timeout) ∷ [])
          ++ (if not (is_empty b.resource_uri)
                && not (text_eq b.resource_uri resource_uri_powershell)
              then (codes "ResourceURI", b.resource_uri) ∷ []
              else []))

  -- The shell that Create answered with becomes the backend's.
  unfoldable pub install : EndpointReference → WsManBackend → WsManBackend
  unfolding configure first_selector
  install created b =
      let epr = record created { resource_uri = b.resource_uri } in
      record b {
        epr = some epr;
        transport = configure remote true (some epr) [] b.transport;
        shell_id = first_selector (λ name. text_eq name (codes "ShellId")) epr.selectors b.shell_id;
        opened = true;
      }

  create_shell : Context → Method (Unit {0})
  unfolding call creation_options install base64
  create_shell c = do
    frags ← call (λ b w. get_handshake_fragments w)
    epr ← call (λ b w. create c (creation_options b) (base64 frags) w)
    modify (λ (s : State). (install epr s.0, s.1))
    call (λ b w. open_pool c true w)

  unfoldable pub init : Context → Method (Unit {0})
  unfolding create_shell
  init c (b, w) =
      if b.closed
      then ((b, w), err pool_closed)
      else if b.opened
      then ((b, w), ok tt)
      else create_shell c (b, w)

  delete_shell : Context → Method (Unit {0})
  unfolding call
  delete_shell c = do
    call (λ b w. delete c b.epr w)
    modify (λ (s : State). (record s.0 { closed = true }, s.1))

  unfoldable pub close : Context → Method (Unit {0})
  unfolding delete_shell
  close c (b, w) =
      if not b.opened
      then ((b, w), err pool_not_opened)
      else if b.closed
      then ((b, w), ok tt)
      else delete_shell c (b, w)

  disconnect_shell : Context → Method (Unit {0})
  unfolding call
  disconnect_shell c = do
    call (λ b w. disconnect c b.epr w)
    modify (λ (s : State). (record s.0 { closed = true; opened = false }, s.1))

  unfoldable pub disconnect_backend : Context → Method (Unit {0})
  unfolding disconnect_shell
  disconnect_backend c (b, w) =
      if b.closed
      then ((b, w), err pool_closed)
      else if not b.opened
      then ((b, w), err pool_not_opened)
      else disconnect_shell c (b, w)

  unfoldable pub reconnect_backend : Context → Text → Method (Unit {0})
  unfolding call
  reconnect_backend c id = call (λ b w. reconnect c id w)

  unfoldable pub attach : Text → WsManBackend → WsManBackend
  unfolding configure
  attach id b = record b {
    epr = some (shell_epr id);
    transport = configure remote true (some (shell_epr id)) [] b.transport;
    shell_id = id;
    opened = true;
    closed = false;
  }

  process_response : List ℕ → Method (Unit {0})
  unfolding call
  process_response data_ s =
      if is_nil data_ then (s, ok tt) else call (λ b w. process_connect_response data_ w) s

  attach_shell : Context → Text → Method (Unit {0})
  unfolding call attach process_response base64
  attach_shell c id = do
    frags ← call (λ b w. get_connect_handshake_fragments w)
    response ← call (λ b w. connect c id (base64 frags) w)
    modify (λ (s : State). (attach id s.0, s.1))
    process_response response
    modify (λ (s : State). (s.0, resume_opened s.1))

  unfoldable pub reattach : Context → Text → Method (Unit {0})
  unfolding attach_shell
  reattach c id (b, w) = if b.opened then ((b, w), ok tt) else attach_shell c id (b, w)

  -- The pipeline's own transport, and the identifier that the server gave the command.
  prepared : Context → Text → Method (WsManTransport remote)
  unfolding call new_wsman_transport set_context
  prepared c payload = do
    id ← call (λ b w. command c b.epr (pipeline_id w) payload w)
    modify (λ (s : State). (s.0, skip_invoke_send s.1))
    λ (s : State). pure (set_context remote c (new_wsman_transport remote true s.0.epr id)) s

  unfoldable pub prepare_pipeline : Context → Text → Method (WsManTransport remote)
  unfolding prepared
  prepare_pipeline c payload (b, w) =
      if not b.opened
      then ((b, w), err pool_not_opened)
      else if b.closed
      then ((b, w), err pool_closed)
      else prepared c payload (b, w)

  -- The function that PreparePipeline returns: it ignores the answer.
  unfoldable pub cleanup : Context → WsManBackend → Text → World → World
  cleanup c b id w = (signal (with_timeout 10_000_000_000 c) b.epr id signal_terminate w).0
