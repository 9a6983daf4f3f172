-- ===== src/Pipeline/Examples.antt =====
-- client/client.go: startPipeline against a server that answers unauthorized at first.
use go_psrp.Common.{
  ℕ, suc, ◌+◌, ◌≤◌, ◌≡◌, refl, true, false, Option, some, none, List, [], ◌∷◌, arith,
}
use go_psrp.Common.State.{Result, ok, err, is_ok}
use go_psrp.Common.Text.{codes}
use go_psrp.Common.Errors.{GoError, sentinel, unauthorized}
use go_psrp.Pipeline.{Pipelines, start_pipeline}
use go_psrp.Session.Settings.{next_call_id}
use go_psrp.Pipeline.Balance.{Counts, Same, count_of, start_pipeline-Balanced}

-- The answers to come to PreparePipeline and to Invoke, the preparations tried and those that
-- succeeded, and the cleanups.
record Server : Type 0 where
  answers : List (Result GoError ℕ)
  invocations : List (Option GoError)
  tried : ℕ
  opened : ℕ
  cleaned : ℕ

abbrev answered : List (Result GoError ℕ) → Server → Server × Result GoError ℕ
answered [] s = (record s { tried = suc s.tried }, err (sentinel unauthorized))
answered (a ∷ later) s =
    (record s { answers = later; opened = s.opened + count_of (is_ok a); tried = suc s.tried }, a)

abbrev invocation : List (Option GoError) → Server → Server × Option GoError
invocation [] s = (s, none)
invocation (e ∷ later) s = (record s { invocations = later }, e)

abbrev serving : Pipelines
serving = record {
  World = Server;
  Pipeline = ℕ;
  Reader = ℕ;
  create_pipeline = λ script s. (s, ok 7);
  create_data = λ id p s. (s, ok (id ∷ []));
  prepare_pipeline = λ p payload s. answered s.answers s;
  cleanup = λ r s. record s { cleaned = suc s.cleaned };
  invoke = λ p s. invocation s.invocations s;
}

-- The second preparation succeeds and is not started; the third is.
abbrev strict : Server
strict = record {
  answers = err (sentinel unauthorized) ∷ ok 5 ∷ ok 6 ∷ [];
  invocations = some (sentinel unauthorized) ∷ [];
  tried = 0;
  opened = 0;
  cleaned = 0;
}

starts : start_pipeline serving true false (codes "hostname") 2 strict ≡ (
  3,
  (record { answers = []; invocations = []; tried = 3; opened = 2; cleaned = 1 }, ok (7, 6)),
)
unfolding start_pipeline next_call_id
starts = refl

answered_counts :
    (later : List (Result GoError ℕ)) (s : Server)
    → ((answered later s).0.opened ≡ s.opened + count_of (is_ok (answered later s).1))
      × ((answered later s).0.tried ≡ suc s.tried)
      × ((answered later s).0.cleaned ≡ s.cleaned)
answered_counts [] s = ground arith
answered_counts (a ∷ later) s = ground arith

invoked_counts :
    (later : List (Option GoError)) (s : Server)
    → Same serving (λ s. s.tried) (λ s. s.opened) (λ s. s.cleaned) (invocation later s).0 s
invoked_counts [] s = (refl, refl, refl)
invoked_counts (e ∷ later) s = (refl, refl, refl)

server-Counts : Counts serving (λ s. s.tried) (λ s. s.opened) (λ s. s.cleaned)
server-Counts = record {
  prepares = λ p t s. answered_counts s.answers s;
  cleans = λ r s. (refl, refl, refl);
  invokes = λ p s. invoked_counts s.invocations s;
  creates = λ t s. (refl, refl, refl);
  encodes = λ id p s. (refl, refl, refl);
}

start_pipeline-Balanced_example :
    let r = (start_pipeline serving true false (codes "hostname") 2 strict).1 in
    (r.0.opened + 0 ≡ 0 + r.0.cleaned + count_of (is_ok r.1)) × (r.0.tried ≤ 0 + 3)
start_pipeline-Balanced_example =
    start_pipeline-Balanced serving server-Counts true false (codes "hostname") 2 strict
