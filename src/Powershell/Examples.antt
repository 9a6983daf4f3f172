-- ===== src/Powershell/Examples.antt =====
-- A scripted server, and the package's theorems and definitions on it.
use go_psrp.Common.{
  ◌⊎◌, ℕ, ◌+◌, ◌≡◌, ◌≢◌, refl, Bool, true, false, Option, none, some, List, [], ◌∷◌, ◌++◌, arith,
  sym,
}
use mathlib.Core.List.{append-nil}
use go_psrp.Powershell
use go_psrp.Common.Text.{codes}
use go_psrp.Common.State.{Result, ok, err, is_ok}
use go_psrp.Powershell.Remote.{Remote, EndpointReference, ReceiveResult}
use go_psrp.Powershell.Transport.{
  WsManTransport, IoError, eof, new_wsman_transport, read, write, close,
}
use go_psrp.Powershell.Transport.Stream.{Logs, Reads, stop, more, held, read_to_end}
use go_psrp.Powershell.Transport.Polling.{read_returns}
use go_psrp.Powershell.Adapter
use go_psrp.Powershell.Adapter.{Adapter, new_adapter, read_split}
use go_psrp.Powershell.Backend
use go_psrp.Powershell.Backend.{
  WsManBackend, BackendError, pool_closed, pool_not_opened, new_wsman_backend, init, reattach,
  shell_epr, disconnect_backend, prepare_pipeline,
}
use go_psrp.Powershell.Backend.Lifecycle.{
  IsValid, IsOn, inits, closes, run, run-new-IsValid, close_is_final, disconnect-reattach,
}

-- The answers that Receive has left, all that it has answered with, and the number of other calls.
record Server : Type 0 where
  answers : List ReceiveResult
  log : List ℕ
  calls : ℕ

-- A server with no answer left fails.
pop : List ReceiveResult → Server → Server × Result ℕ ReceiveResult
pop [] w = (w, err 7)
pop (r ∷ rs) w = (record w { answers = rs; log = w.log ++ r.stdout }, ok r)

tick : {A : Type 0} → A → Server → Server × Result ℕ A
tick a w = (record w { calls = w.calls + 1 }, ok a)

-- An operation on the shell that it is given.
with_shell : {A : Type 0} → A → Option EndpointReference → Server → Server × Result ℕ A
unfolding tick
with_shell a none w = (w, err 8)
with_shell a (some e) w = tick a w

abbrev shell : EndpointReference
shell = record { address = []; resource_uri = []; selectors = (codes "ShellId", codes "A1") ∷ [] }

abbrev server : Remote
server = record {
  World = Server;
  Context = Unit {0};
  Error = ℕ;
  background = tt;
  with_timeout = λ n c. c;
  context_error = λ w c. none;
  create = λ c options xml w. tick shell w;
  delete = λ c epr w. with_shell tt epr w;
  command = λ c epr id payload w. with_shell id epr w;
  send = λ c epr id stream bytes w. with_shell tt epr w;
  receive = λ c epr id w. pop w.answers w;
  signal = λ c epr id code w. with_shell tt epr w;
  disconnect = λ c epr w. with_shell tt epr w;
  reconnect = λ c id w. tick tt w;
  connect = λ c id xml w. tick [] w;
  get_handshake_fragments = λ w. (w, ok (1 ∷ []));
  get_connect_handshake_fragments = λ w. (w, ok (2 ∷ []));
  open_pool = λ c skip w. (w, ok tt);
  process_connect_response = λ bytes w. (w, ok tt);
  resume_opened = λ w. w;
  skip_invoke_send = λ w. w;
  pipeline_id = λ w. codes "P1";
}

pop-log : (rs : List ReceiveResult) (w : Server) → (pop rs w).0.log ≡ w.log ++ held (pop rs w).1
unfolding pop
pop-log [] w = sym (append-nil w.log)
pop-log (r ∷ rs) w = refl

server-Logs : Logs server (λ w. w.log)
server-Logs c e id w = pop-log w.answers w

abbrev chunk : List ℕ → Bool → ReceiveResult
chunk bytes done = record { stdout = bytes; stderr = []; exit_code = 0; done = done }

-- Nothing, three bytes, and one more at the end.
abbrev start : Server
start = record {
  answers = chunk [] false ∷ chunk (1 ∷ 2 ∷ 3 ∷ []) false ∷ chunk (4 ∷ []) true ∷ [];
  log = [];
  calls = 0;
}

abbrev transport : WsManTransport server
transport = record {
  configured = true;
  epr = some shell;
  command_id = codes "P1";
  ctx = tt;
  read_buf = [];
  done = false;
}

abbrev after_two : WsManTransport server
after_two = record transport { read_buf = 3 ∷ [] }

abbrev world_two : Server
world_two = record { answers = chunk (4 ∷ []) true ∷ []; log = 1 ∷ 2 ∷ 3 ∷ []; calls = 0 }

first_read : read server 3 transport 2 start ≡ some (after_two, world_two, ok (1 ∷ 2 ∷ []))
unfolding read pop
first_read = refl

abbrev at_end : WsManTransport server
at_end = record transport { done = true }

abbrev world_end : Server
world_end = record { answers = []; log = 1 ∷ 2 ∷ 3 ∷ 4 ∷ []; calls = 0 }

three-Reads : Reads server transport start (1 ∷ 2 ∷ 3 ∷ 4 ∷ []) at_end world_end
unfolding read pop
three-Reads =
    more 3 2 (ok (1 ∷ 2 ∷ [])) refl (more 3 2 (ok (3 ∷ [])) refl (more 3 2 (ok (4 ∷ [])) refl stop))

last_read : read server 3 at_end 2 world_end ≡ some (at_end, world_end, err eof)
unfolding read
last_read = refl

read_to_end_example :
    (world_end.log ≡ (1 ∷ 2 ∷ 3 ∷ 4 ∷ []) ++ [])
    × (world_end.log ≡ ((1 ∷ 2 ∷ 3 ∷ 4 ∷ []) ++ []) ++ [])
read_to_end_example =
    read_to_end server (λ w. w.log) server-Logs refl three-Reads 3 2 (err eof) last_read

read_returns_example : read server 2 transport 2 start ≢ none
unfolding pop
read_returns_example = read_returns server 2 2 transport 2 start refl (omega arith)

abbrev adapter : Adapter server
adapter = record {
  epr = some shell;
  command_id = codes "P1";
  read_buf = 9 ∷ [];
  done = false;
  ctx = tt;
}

read_split_example :
    let (a', w', out) = Adapter.read server adapter 4 (record start { log = 9 ∷ [] }) in
    w'.log ≡ ([] ++ Powershell.Transport.Stream.handed out) ++ a'.read_buf
read_split_example =
    read_split server (λ w. w.log) server-Logs [] adapter 4 (record start { log = 9 ∷ [] }) refl

abbrev fresh : WsManBackend server
fresh = record {
  epr = none;
  shell_id = [];
  opened = false;
  closed = false;
  transport = transport;
  idle_timeout = codes "PT30M";
  resource_uri = codes "urn:x";
}

abbrev opened : WsManBackend server
opened = record fresh {
  epr = some (record shell { resource_uri = codes "urn:x" });
  shell_id = codes "A1";
  opened = true;
  transport = record transport {
    epr = some (record shell { resource_uri = codes "urn:x" });
    command_id = [];
  };
}

init_opens : init server tt (fresh, start) ≡ ((opened, record start { calls = 1 }), ok tt)
unfolding init tick
init_opens = refl

abbrev shut : WsManBackend server
shut = record opened { closed = true }

close_shuts : Backend.close server tt (opened, start) ≡ ((shut, record start { calls = 1 }), ok tt)
unfolding Backend.close with_shell
close_shuts = refl

run-new-IsValid_example :
    IsValid server
      (run server (inits tt ∷ closes tt ∷ []) (new_wsman_backend server transport, start)).0
run-new-IsValid_example = run-new-IsValid server (inits tt ∷ closes tt ∷ []) transport start

close_is_final_example :
    (Backend.close server tt (shut, record start { calls = 1 })
      ≡ ((shut, record start { calls = 1 }), ok tt))
    × (prepare_pipeline server tt (codes "x") (shut, record start { calls = 1 })
        ≡ ((shut, record start { calls = 1 }), err pool_closed))
    × (init server tt (shut, record start { calls = 1 })
        ≡ ((shut, record start { calls = 1 }), err pool_closed))
close_is_final_example = close_is_final server tt tt (codes "x") _ _ close_shuts

abbrev detached : WsManBackend server
detached = record opened { closed = true; opened = false }

disconnect_detaches :
    disconnect_backend server tt (opened, start) ≡ ((detached, record start { calls = 1 }), ok tt)
unfolding disconnect_backend with_shell
disconnect_detaches = refl

abbrev attached : WsManBackend server
attached = record opened {
  epr = some (shell_epr (codes "A1"));
  transport = record transport { epr = some (shell_epr (codes "A1")); command_id = [] };
}

reattach_attaches :
    reattach server tt (codes "A1") (detached, record start { calls = 1 })
    ≡ ((attached, record start { calls = 2 }), ok tt)
unfolding reattach tick
reattach_attaches = refl

disconnect-reattach_example :
    ((is_ok (reattach server tt (codes "A1") (detached, record start { calls = 1 })).1 ≡ false)
      × ((reattach server tt (codes "A1") (detached, record start { calls = 1 })).0.0 ≡ detached))
    ⊎ IsOn server
        (codes "A1")
        (reattach server tt (codes "A1") (detached, record start { calls = 1 })).0.0
disconnect-reattach_example =
    (disconnect-reattach server tt tt (codes "A1") (codes "B2") (codes "x") (opened, start) _
      disconnect_detaches).5
