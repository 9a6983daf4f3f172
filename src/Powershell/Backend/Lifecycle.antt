-- ===== src/Powershell/Backend/Lifecycle.antt =====
-- powershell/runspace.go: the backend's life, over every order of its calls and every answer.
use go_psrp.Common.{◌≡◌, true, false, some, List, [], ◌∷◌, arith, is_some, ◌⊎◌}
use go_psrp.Common.Text.{Text}
use go_psrp.Common.State.{ok, err, is_ok}
use go_psrp.Powershell.Remote.{Remote}
use go_psrp.Powershell.Transport.{WsManTransport}
use go_psrp.Powershell.Backend.{
  WsManBackend, pool_closed, pool_not_opened, State, new_wsman_backend, init, close,
  disconnect_backend, reconnect_backend, reattach, prepare_pipeline, shell_epr, set_resource_uri,
  set_idle_timeout,
}

module _ (remote : Remote) where
  open remote use {World, Context, Error, resume_opened}

  -- An open backend has a shell, which its own transport is set up to reach.
  pub record IsValid (b : WsManBackend remote) : Type 0 where
    pub reachable : b.opened ≡ true → b.transport.configured ≡ true
    pub has_shell : b.opened ≡ true → is_some b.epr ≡ true
    pub same_shell : b.opened ≡ true → b.transport.epr ≡ b.epr
    -- A closed backend that is not open was disconnected, so it had a shell.
    pub had_shell : b.closed ≡ true → is_some b.epr ≡ true

  -- The methods but SetOpened and SetEPR, with which a caller can put a backend into any state.
  pub data Call : Type 0 where
    inits closes disconnects : Context → Call
    reconnects reattaches prepares : Context → Text → Call
    sets_resource_uri sets_idle_timeout : Text → Call

  pub step : Call → State remote → State remote
  step (inits c) s = (init remote c s).0
  step (closes c) s = (close remote c s).0
  step (disconnects c) s = (disconnect_backend remote c s).0
  step (reconnects c id) s = (reconnect_backend remote c id s).0
  step (reattaches c id) s = (reattach remote c id s).0
  step (prepares c payload) s = (prepare_pipeline remote c payload s).0
  step (sets_resource_uri uri) s = (set_resource_uri remote uri s.0, s.1)
  step (sets_idle_timeout d) s = (set_idle_timeout remote d s.0, s.1)

  pub run : List Call → State remote → State remote
  run [] s = s
  run (c ∷ cs) s = run cs (step c s)

  step-IsValid : (c : Call) (s : State remote) → IsValid s.0 → IsValid (step c s).0
  unfolding step init close disconnect_backend reconnect_backend reattach prepare_pipeline
      set_resource_uri set_idle_timeout
  step-IsValid (inits c) s v = ground arith
  step-IsValid (closes c) s v = ground arith
  step-IsValid (disconnects c) s v = ground arith
  step-IsValid (reconnects c id) s v = ground arith
  step-IsValid (reattaches c id) s v = ground arith
  step-IsValid (prepares c payload) s v = ground arith
  step-IsValid (sets_resource_uri uri) s v = ground arith
  step-IsValid (sets_idle_timeout d) s v = ground arith

  run-IsValid : (cs : List Call) (s : State remote) → IsValid s.0 → IsValid (run cs s).0
  unfolding run
  run-IsValid [] s v = v
  run-IsValid (c ∷ cs) s v = run-IsValid cs (step c s) (step-IsValid c s v)

  -- After any Init, Close, Disconnect, Reconnect, Reattach, PreparePipeline, SetResourceURI and
  -- SetIdleTimeout of a new backend (without SetOpened and SetEPR), in any order and whatever the
  -- server answers: while it counts as opened it has a shell, and its own transport is
  -- configured for that same shell; and it is closed only if it had one.
  pub run-new-IsValid :
      (cs : List Call) (t : WsManTransport remote) (w : World)
      → IsValid (run cs (new_wsman_backend remote t, w)).0
  run-new-IsValid cs t w = run-IsValid cs _ start
    where
      start : IsValid (new_wsman_backend remote t)
      start = unfold new_wsman_backend in ground arith

  close-shut :
      (c : Context) (s s' : State remote)
      → close remote c s ≡ (s', ok tt)
      → (s'.0.opened ≡ true) × (s'.0.closed ≡ true)
  unfolding close
  close-shut c s s' h = ground arith

  -- Close after a successful Close succeeds and sends nothing; PreparePipeline and Init are then
  -- refused with ErrPoolClosed and send nothing.
  pub close_is_final :
      (c c' : Context) (payload : Text) (s s' : State remote)
      → close remote c s ≡ (s', ok tt)
      → (close remote c' s' ≡ (s', ok tt))
        × (prepare_pipeline remote c' payload s' ≡ (s', err pool_closed))
        × (init remote c' s' ≡ (s', err pool_closed))
  unfolding close prepare_pipeline init
  close_is_final c c' payload s s' h = let e = close-shut c s s' h in ground arith

  disconnect_backend-detached :
      (c : Context) (s s' : State remote)
      → disconnect_backend remote c s ≡ (s', ok tt)
      → (s'.0.opened ≡ false) × (s'.0.closed ≡ true)
  unfolding disconnect_backend
  disconnect_backend-detached c s s' h = ground arith

  -- Opened on the shell with an identifier.
  pub record IsOn (id : Text) (b : WsManBackend remote) : Type 0 where
    pub is_opened : b.opened ≡ true
    pub not_closed : b.closed ≡ false
    pub shell_named : b.shell_id ≡ id
    pub of_shell : b.epr ≡ some (shell_epr id)
    pub reaches_shell : b.transport.epr ≡ some (shell_epr id)
    pub is_configured : b.transport.configured ≡ true

  reattach_lem :
      (c : Context) (id : Text) (s : State remote)
      → s.0.opened ≡ false
      → ((is_ok (reattach remote c id s).1 ≡ false) × ((reattach remote c id s).0.0 ≡ s.0))
        ⊎ IsOn id (reattach remote c id s).0.0
  unfolding reattach
  reattach_lem c id s h = ground arith

  -- After a Disconnect that succeeds: Close, Disconnect, Init and PreparePipeline are refused and
  -- send nothing; Reconnect leaves the backend as it is; and a Reattach, whatever the server answers,
  -- either fails and leaves the backend as it is, or opens it on the shell whose
  -- identifier it was given, with a transport configured for that shell.
  pub disconnect-reattach :
      (c c' : Context) (id id' payload : Text) (s s' : State remote)
      → disconnect_backend remote c s ≡ (s', ok tt)
      → (close remote c' s' ≡ (s', err pool_not_opened))
        × (disconnect_backend remote c' s' ≡ (s', err pool_closed))
        × (init remote c' s' ≡ (s', err pool_closed))
        × (prepare_pipeline remote c' payload s' ≡ (s', err pool_not_opened))
        × ((reconnect_backend remote c' id' s').0.0 ≡ s'.0)
        × (((is_ok (reattach remote c' id s').1 ≡ false) × ((reattach remote c' id s').0.0 ≡ s'.0))
            ⊎ IsOn id (reattach remote c' id s').0.0)
  unfolding disconnect_backend reattach close init prepare_pipeline reconnect_backend
  disconnect-reattach c c' id id' payload s s' h =
      let e = disconnect_backend-detached c s s' h in
      (
        ground arith,
        ground arith,
        ground arith,
        ground arith,
        ground arith,
        reattach_lem c' id s' e.0,
      )
