-- ===== src/Pipeline/Balance.antt =====
-- client/client.go: startPipeline calls the cleanup of what it prepared and did not start.
use go_psrp.Common.{ℕ, zero, suc, ◌+◌, ◌≤◌, ◌≡◌, Bool, true, false, Option, none, some, List, arith}
use go_psrp.Common.State.{Result, ok, err, is_ok}
use go_psrp.Common.Text.{Text, codes, base64}
use go_psrp.Common.Errors.{GoError}
use go_psrp.Session.Settings.{next_call_id}
use go_psrp.Pipeline.{
  Pipelines, Outcome, failed, invoked, prepared, attempts, data_created, created, start_pipeline,
}

abbrev pub count_of : Bool → ℕ
count_of true = 1
count_of false = 0

module _ (pipelines : Pipelines) where
  open pipelines use {
    World, Pipeline, Reader, create_pipeline, create_data, prepare_pipeline, cleanup, invoke,
  }

  -- Counts of calls: of PreparePipeline, of those of them that succeeded, and of the cleanups that they
  -- returned.
  -- Two worlds with the same counts.
  abbrev pub Same : (World → ℕ) → (World → ℕ) → (World → ℕ) → World → World → Type 0
  Same tries prepared_ok cleaned v w =
      (tries v ≡ tries w) × (prepared_ok v ≡ prepared_ok w) × (cleaned v ≡ cleaned w)

  pub record Counts (tries prepared_ok cleaned : World → ℕ) : Type 0 where
    pub prepares :
        (p : Pipeline) (t : Text) (w : World)
        → (prepared_ok (prepare_pipeline p t w).0
            ≡ prepared_ok w + count_of (is_ok (prepare_pipeline p t w).1))
          × (tries (prepare_pipeline p t w).0 ≡ suc (tries w))
          × (cleaned (prepare_pipeline p t w).0 ≡ cleaned w)
    pub cleans :
        (r : Reader) (w : World)
        → (cleaned (cleanup r w) ≡ suc (cleaned w))
          × (tries (cleanup r w) ≡ tries w)
          × (prepared_ok (cleanup r w) ≡ prepared_ok w)
    pub invokes : (p : Pipeline) (w : World) → Same tries prepared_ok cleaned (invoke p w).0 w
    pub creates : (s : Text) (w : World) → Same tries prepared_ok cleaned (create_pipeline s w).0 w
    pub encodes :
        (id : ℕ) (p : Pipeline) (w : World)
        → Same tries prepared_ok cleaned (create_data id p w).0 w

  module _ {tries prepared_ok cleaned : World → ℕ} (counts : Counts tries prepared_ok cleaned) where
    -- With so many preparations, good ones and cleanups before: the good ones since then are as many as
    -- the cleanups since then, and one more if the outcome has a pipeline; at most `left`
    -- preparations.
    Balanced : ℕ → ℕ → ℕ → ℕ → Outcome pipelines → Type 0
    Balanced before done_before tried left (w, r) =
        (prepared_ok w + done_before ≡ before + cleaned w + count_of (is_ok r))
        × (tries w ≤ tried + left)

    module _ (left : ℕ) (again : World → Outcome pipelines)
        (balanced : (w : World)
          → Balanced (prepared_ok w) (cleaned w) (tries w) left (again w)) where
      failed-Balanced :
          (text : Text) (e : GoError) (w : World)
          → Balanced (prepared_ok w) (cleaned w) (tries w) left (failed pipelines text again e w)
      unfolding failed Balanced
      failed-Balanced text e w = ground (arith, balanced w)

      invoked-Balanced :
          (p : Pipeline) (r : Reader) (before done_before : ℕ) (q : World × Option GoError)
          → prepared_ok q.0 + done_before ≡ before + cleaned q.0 + 1
          → Balanced before done_before (tries q.0) left (invoked pipelines again p r q)
      unfolding invoked Balanced
      invoked-Balanced p r before done_before (w, none) e = ground arith
      invoked-Balanced p r before done_before (w, some x) e =
          ground
            (arith, failed-Balanced (codes "invoke pipeline: ") x (cleanup r w), counts.cleans r w)

      prepared-Balanced :
          (p : Pipeline) (before done_before : ℕ) (q : World × Result GoError Reader)
          → prepared_ok q.0 + done_before ≡ before + cleaned q.0 + count_of (is_ok q.1)
          → Balanced before done_before (tries q.0) left (prepared pipelines again p q)
      unfolding prepared Balanced
      prepared-Balanced p before done_before (w, err x) e =
          ground (arith, failed-Balanced (codes "prepare pipeline: ") x w)
      prepared-Balanced p before done_before (w, ok r) e =
          ground (arith, invoked-Balanced p r before done_before (invoke p w), counts.invokes p w)

    attempts-Balanced :
        (left : ℕ) (p : Pipeline) (payload : Text) (w : World)
        → Balanced (prepared_ok w) (cleaned w) (tries w) left (attempts pipelines left p payload w)
    unfolding attempts Balanced
    attempts-Balanced zero p payload w = ground arith
    attempts-Balanced (suc left) p payload w =
        let rest =
          prepared-Balanced left (attempts pipelines left p payload)
            (attempts-Balanced left p payload) p (prepared_ok w) (cleaned w)
            (prepare_pipeline p payload w) in
        ground (arith, rest, counts.prepares p payload w)

    data_created-Balanced :
        (p : Pipeline) (q : World × Result GoError (List ℕ))
        → Balanced (prepared_ok q.0) (cleaned q.0) (tries q.0) 3 (data_created pipelines p q)
    unfolding data_created Balanced
    data_created-Balanced p (w, err e) = ground arith
    data_created-Balanced p (w, ok bytes) = attempts-Balanced 3 p (base64 bytes) w

    created-Balanced :
        (id : ℕ) (q : World × Result GoError Pipeline)
        → Balanced (prepared_ok q.0) (cleaned q.0) (tries q.0) 3 (created pipelines id q).1
    unfolding created Balanced
    created-Balanced id (w, err e) = ground arith
    created-Balanced id (w, ok p) = ground (
      arith,
      data_created-Balanced p (create_data (next_call_id id) p w),
      counts.encodes (next_call_id id) p w,
    )

    -- Whatever the calls return: startPipeline calls as many cleanups as it has preparations that
    -- succeed, less the one that it hands on if it returns a pipeline; and it tries three preparations
    -- at most.
    pub start_pipeline-Balanced :
        (connected closed : Bool) (script : Text) (id : ℕ) (w : World)
        → let r = (start_pipeline pipelines connected closed script id w).1 in
          (prepared_ok r.0 + cleaned w ≡ prepared_ok w + cleaned r.0 + count_of (is_ok r.1))
          × (tries r.0 ≤ tries w + 3)
    unfolding start_pipeline Balanced
    start_pipeline-Balanced connected closed script id w =
        ground (arith, created-Balanced id (create_pipeline script w), counts.creates script w)
