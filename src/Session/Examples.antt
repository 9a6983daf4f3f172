-- ===== src/Session/Examples.antt =====
-- client/client.go: clients whose services count the calls.
use go_psrp.Common.{ℕ, suc, ◌≡◌, refl, Bool, true, false, ◌||◌, Option, none, some, List, [], ◌∷◌}
use go_psrp.Common.Int.{pos}
use go_psrp.Common.State.{ok, is_ok}
use go_psrp.Common.Text.{codes}
use go_psrp.Common.Errors.{GoError, sentinel, eof}
use go_psrp.Session.Interface.{Services}
use go_psrp.Session.{Config, TransportType, wsman, Client, new_client, connect, build_resource_uri}
use go_psrp.Session.Ending.{graceful, force, captured, close_with_strategy, reconnect}
use go_psrp.Session.Life.{
  Operation, connecting, closing, close_begins, close_ends, disconnecting, reconnecting, IsUsable,
  run, run-new-IsUsable,
}
use go_psrp.Session.Closing.{close_twice, reconnect_flags, blocked, closed_error}
use go_psrp.Breaker.{CircuitBreaker, new_circuit_breaker}

abbrev succeeds : ℕ → ℕ × Option GoError
succeeds w = (suc w, none)

abbrev counting : Services
counting = record {
  World = ℕ;
  Backend = Bool;
  Pool = ℕ;
  is_wsman = λ b. b;
  supports_psrp_keepalive = λ b. elim b [ true ↦ false | false ↦ true ];
  new_uuid = λ w. (suc w, w);
  new_hv_socket_backend = λ id w. (w, false);
  new_wsman_backend = λ uri idle w. (w, true);
  connect_backend = λ b. succeeds;
  set_transport_context = λ b w. w;
  new_pool = λ b id w. (w, id);
  set_max_runspaces = λ n p w. w;
  init_backend = λ b p. succeeds;
  start_dispatch = λ p w. suc w;
  set_message_id = λ n p w. w;
  close_pool = λ p. succeeds;
  disconnect_pool = λ p. succeeds;
  close_backend = λ b w. (w, some (sentinel eof));
  reattach = λ b p id. succeeds;
  disconnect_backend = λ b. succeeds;
  Keepalive = ℕ;
  start_keepalive = λ w. (suc w, w);
  end_keepalive = λ k w. suc w;
  wait_keepalives = λ w. w;
  Manager = ℕ;
  start_manager = λ w. (suc w, w);
  stop_manager = λ m w. suc w;
}

abbrev config : TransportType → Config
config t = record {
  transport = t;
  max_runspaces = pos 0;
  max_concurrent_commands = pos 4;
  max_queue_size = pos 8;
  timeout = pos 0;
  resource_uri = [];
  configuration_name = codes "JEA";
  idle_timeout = [];
  keep_alive_interval = pos 30;
  reconnect_enabled = true;
}

abbrev client : Client counting
client = new_client counting (config wsman) 0

uri : build_resource_uri (config wsman) ≡ codes "http://schemas.microsoft.com/powershell/JEA"
unfolding build_resource_uri
uri = refl

-- A close whose second part ends after a Reconnect.
abbrev script : List (Operation counting)
script =
    connecting none 1 2
    ∷ disconnecting
    ∷ connecting none 3 4
    ∷ close_begins
    ∷ reconnecting (codes "shell")
    ∷ close_ends graceful (captured counting client)
    ∷ closing force
    ∷ []

run-new-IsUsable_example : IsUsable counting (config wsman) (run counting script client)
run-new-IsUsable_example = run-new-IsUsable counting (config wsman) 0 script

abbrev breaker : Option CircuitBreaker
breaker = some (new_circuit_breaker none)

close_twice_example :
    let d = (close_with_strategy counting graceful client).0 in
    (close_with_strategy counting force d ≡ (d, ok tt))
    × ((connect counting breaker 5 6 d).1 ≡ d)
    × ((connect counting breaker 5 6 d).2 ≡ some (closed_error (blocked breaker 5)))
close_twice_example = close_twice counting graceful force breaker 5 6 client

abbrev closed_client : Client counting
closed_client = record client { closed = true }

reconnect_flags_example :
    ((reconnect counting [] closed_client).0.closed ≡ true)
    × ((reconnect counting [] closed_client).0.connected
        ≡ (is_ok (reconnect counting [] closed_client).1 || false))
unfolding new_client
reconnect_flags_example = reconnect_flags counting [] closed_client
