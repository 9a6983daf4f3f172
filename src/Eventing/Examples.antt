-- ===== src/Eventing/Examples.antt =====
-- client/eventing.go: a subscription whose first pull brings an event and whose second one fails.
use go_psrp.Common.{ℕ, zero, suc, ◌+◌, ◌≡◌, refl, true, false, none, List, [], ◌∷◌}
use go_psrp.Common.State.{Result, ok, err}
use go_psrp.Common.Text.{Text, codes}
use go_psrp.Common.Errors.{GoError, Sentinel, message, wrap}
use go_psrp.Eventing.{
  default_options, Services, PullResponse, Subscribed, Step, tick, receive_event, receive_error,
  close, subscribe, chosen, validated, run, polled, report, emit, emit_items, continue_at, end_at,
}
use go_psrp.Eventing.Steps.{Faithful, pulled_in, subscribe-Faithful}

abbrev no_text : Sentinel → Text
no_text s = []

abbrev gone : GoError
gone = message (codes "InvalidEnumerationContext")

abbrev answer : ℕ → Result GoError PullResponse
answer zero =
    ok (record { enumeration_context = codes "2"; items = codes "<a/>"; end_of_sequence = false })
answer (suc n) = err gone

-- The world counts the pulls.
abbrev counted : Services
counted = record {
  World = ℕ;
  pull = λ uri context n w. (w + 1, answer w);
  unsubscribe = λ w. (w, none);
}

abbrev begun : Subscribed ℕ
begun = record {
  world = 0;
  poll_loop = record {
    resource_uri = default_options.resource_uri;
    poll_interval = default_options.poll_interval;
    enum_context = codes "1";
    cancelled = false;
    returned = false;
    events = [];
    errors = [];
  };
  received = [];
  received_errors = [];
}

abbrev steps : List Step
steps = tick ∷ receive_event ∷ tick ∷ close ∷ tick ∷ receive_error ∷ []

loop_ends : (run no_text counted steps begun).poll_loop.returned ≡ true
unfolding run polled emit_items emit report continue_at end_at
loop_ends = refl

item_received : (run no_text counted steps begun).received ≡ codes "<a/>" ∷ []
unfolding run
item_received = refl

error_received :
    (run no_text counted steps begun).received_errors ≡ wrap (codes "pull error: ") gone ∷ []
unfolding run
error_received = refl

two_pulls : (run no_text counted steps begun).world ≡ 2
unfolding run
two_pulls = refl

begins :
    (subscribe no_text counted (λ uri query w. (w, ok (codes "1"))) true (codes "q") [] 0).1
    ≡ ok begun
unfolding subscribe chosen validated
begins = refl

subscribe-Faithful_example :
    Faithful no_text counted
      (pulled_in no_text counted steps begun [])
      (run no_text counted steps begun)
subscribe-Faithful_example =
    subscribe-Faithful no_text counted (λ uri query w. (w, ok (codes "1"))) true (codes "q") [] 0
      begun steps begins
