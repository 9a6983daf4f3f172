-- ===== src/Pipeline.antt =====
-- client/client.go: startPipeline, which creates, prepares and invokes a pipeline and tries up to
-- three times when the server answers that it is unauthorized.
pub mod Balance
mod Examples
use go_psrp.Common.{
  ℕ, zero, suc, ◌+◌, Bool, true, false, not, Option, none, some, List, if◌then◌else◌,
}
use go_psrp.Common.State.{Result, ok, err}
use go_psrp.Common.Text.{Text, codes, base64}
use go_psrp.Common.Errors.{GoError, unauthorized, error_is, message, wrap}
use go_psrp.Session.Settings.{next_call_id}

-- What is called: the pool's CreatePipeline, the pipeline's GetCreatePipelineDataWithID and Invoke,
-- and the backend's PreparePipeline with the cleanup that it returns, which reports no error.
pub record Pipelines : Type 1 where
  pub World : Type 0
  pub Pipeline : Type 0
  pub Reader : Type 0
  pub create_pipeline : Text → World → World × Result GoError Pipeline
  pub create_data : ℕ → Pipeline → World → World × Result GoError (List ℕ)
  pub prepare_pipeline : Pipeline → Text → World → World × Result GoError Reader
  pub cleanup : Reader → World → World
  pub invoke : Pipeline → World → World × Option GoError

module _ (pipelines : Pipelines) where
  open pipelines use {
    World, Pipeline, Reader, create_pipeline, create_data, prepare_pipeline, cleanup, invoke,
  }

  abbrev pub Outcome : Type 0
  Outcome = World × Result GoError (Pipeline × Reader)

  -- After an error of the round: the next round, if the server said unauthorized.
  unfoldable pub failed : Text → (World → Outcome) → GoError → World → Outcome
  failed text again e w = if error_is e unauthorized then again w else (w, err (wrap text e))

  unfoldable pub invoked : (World → Outcome) → Pipeline → Reader → World × Option GoError → Outcome
  unfolding failed
  invoked again p r (w, none) = (w, ok (p, r))
  invoked again p r (w, some e) = failed (codes "invoke pipeline: ") again e (cleanup r w)

  unfoldable pub prepared : (World → Outcome) → Pipeline → World × Result GoError Reader → Outcome
  unfolding failed invoked
  prepared again p (w, err e) = failed (codes "prepare pipeline: ") again e w
  prepared again p (w, ok r) = invoked again p r (invoke p w)

  -- The loop, with the number of rounds left.
  unfoldable pub attempts : ℕ → Pipeline → Text → World → Outcome
  unfolding prepared
  attempts zero p payload w =
      (w, err (message (codes "failed to start pipeline after retries due to transport error")))
  attempts (suc left) p payload w =
      prepared (attempts left p payload) p (prepare_pipeline p payload w)

  unfoldable pub data_created : Pipeline → World × Result GoError (List ℕ) → Outcome
  unfolding attempts
  data_created p (w, err e) = (w, err (wrap (codes "get create pipeline data: ") e))
  data_created p (w, ok bytes) = attempts 3 p (base64 bytes) w

  -- The message counter moves once the pipeline is created.
  unfoldable pub created : ℕ → World × Result GoError Pipeline → ℕ × Outcome
  unfolding data_created
  created id (w, err e) = (id, (w, err (wrap (codes "create pipeline: ") e)))
  created id (w, ok p) = (next_call_id id, data_created p (create_data (next_call_id id) p w))

  -- The flags are those of the client; the result has the message counter.
  unfoldable pub start_pipeline : Bool → Bool → Text → ℕ → World → ℕ × Outcome
  unfolding created
  start_pipeline connected closed script id w =
      if not connected
      then (id, (w, err (message (codes "client not connected"))))
      else if closed
      then (id, (w, err (message (codes "client is closed"))))
      else created id (create_pipeline script w)
