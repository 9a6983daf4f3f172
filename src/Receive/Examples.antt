-- ===== src/Receive/Examples.antt =====
-- client/client.go: runPipelineReceive on fragments written out.
use go_psrp.Common.{ℕ, ◌≡◌, refl, false, none, List, [], ◌∷◌, ◌++◌}
use go_psrp.Common.State.{ok}
use go_psrp.Common.Text.{Text, codes}
use go_psrp.Common.Errors.{GoError}
use go_psrp.Receive.{Pipelines, receive, dispatch, read_full}
use go_psrp.Receive.Reassembly.{Eight, Split, encode_all}

-- A pipeline that keeps the messages handed to it, and the errors.
abbrev recording : Pipelines
recording = record {
  Message = Text;
  Pipeline = List Text × List GoError;
  decode = λ s. ok s;
  handle = λ m p. ((p.0 ++ (m ∷ []), p.1), none);
  fail = λ e p. (p.0, e ∷ p.1);
  is_done = λ p. false;
  ended = λ p. false;
}

abbrev id : ℕ → Eight
id n = record { b0 = 0; b1 = 0; b2 = 0; b3 = 0; b4 = 0; b5 = 0; b6 = 0; b7 = n }

abbrev two_messages : List Split
two_messages =
    record {
      first = record { object_id = id 3; fragment_id = id 0; blob = codes "ab" };
      others = record { object_id = id 3; fragment_id = id 1; blob = codes "c" } ∷ [];
    }
    ∷ record {
      first = record { object_id = id 4; fragment_id = id 0; blob = codes "d" };
      others = [];
    }
    ∷ []

receives :
    receive recording none 9 (encode_all two_messages) (codes "stale") ([], [])
    ≡ ([], (codes "abc" ∷ codes "d" ∷ [], []))
unfolding receive dispatch read_full
receives = refl
