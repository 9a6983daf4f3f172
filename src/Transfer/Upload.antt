-- ===== src/Transfer/Upload.antt =====
-- client/filetransfer.go: copyFileParallel. The workers' goroutines are interleaved: at each step of
-- a schedule one of them moves on, by taking a slot, getting its client, taking a job, or uploading
-- the chunk of its job. The numbers in the texts of errors are left out. The calls of other parts
-- and of the system are parameters.
pub mod Pending
pub mod Failure
pub mod Writing
pub mod Delivery
pub mod Steps
pub mod Ending
mod Examples
use go_psrp.Common.{
  ℕ, zero, suc, ◌+◌, ◌-◌, ◌*◌, Bool, true, false, ◌&&◌, ◌||◌, not, Option, none, some, List, [],
  ◌∷◌, ◌++◌, if◌then◌else◌, ltb, ◌==◌, is_some, length, replicate,
}
use go_psrp.Common.Text.{Text, codes, base64, decimal, contains}
use go_psrp.Common.Errors.{GoError, Sentinel, message, wrap, sentinel, canceled, eof, error_text}
use go_psrp.Transfer.Options.{FileTransferOptions, num_chunks, second}
use go_psrp.Transfer.Progress.{TransferProgress, update}
use go_psrp.Transfer.Scripts.{generate_offset_write_script, generate_preallocate_script}

-- What is called: Execute of the client and, with a timeout, of a worker; CreateWorker, Connect and
-- Close of a worker; ctx.Err of the caller's context; ReadAt with the size of the buffer and the
-- offset; and the texts of the sentinel errors.
pub record Services : Type 1 where
  pub World : Type 0
  pub execute : Text → World → World × Option GoError
  pub worker_execute : ℕ → Text → World → World × Option GoError
  pub create_worker : World → World × Option GoError
  pub connect_worker : World → World × Option GoError
  pub close_worker : World → World
  pub context_error : World → Option GoError
  pub read_at : ℕ → ℕ → Text × Option GoError
  pub text : Sentinel → Text

abbrev pub max_chunk_base64_size : ℕ
max_chunk_base64_size = 2 * 1024 * 1024

-- An error of a read, unless it is io.EOF.
unfoldable pub read_error : Option GoError → Option GoError
read_error none = none
read_error (some (sentinel eof)) = none
read_error (some e) = some e

-- What a worker's goroutine does next.
pub data Phase : Type 0 where
  -- Waits for a slot of the semaphore.
  starting : Phase
  -- Has the slot, and no client yet.
  acquired : Phase
  -- Is connected, and takes the next job from the channel.
  ready : Phase
  -- Has taken the job of this index.
  holding : ℕ → Phase
  finished : Phase

-- The first error of a goroutine is the group's, and cancels its context.
abbrev pub first_error : Option GoError → Option GoError → Option GoError
first_error none e = e
first_error (some e) e' = some e

unfoldable pub chunk_timeout_of : FileTransferOptions → ℕ
chunk_timeout_of opt = if opt.chunk_timeout == 0 then 60 * second else opt.chunk_timeout

abbrev pub clamp : ℕ → ℕ → ℕ
clamp limit n = if ltb limit n then limit else n

-- The jobs in the channel, in their order.
unfoldable pub jobs_from : ℕ → ℕ → List ℕ
jobs_from i zero = []
jobs_from i (suc n) = i ∷ jobs_from (i + 1) n

abbrev pub all_finished : List Phase → Bool
all_finished [] = true
all_finished (finished ∷ ps) = all_finished ps
all_finished (_ ∷ ps) = false

module _ (services : Services) where
  open services use {
    World, execute, worker_execute, create_worker, connect_worker, close_worker, context_error,
    read_at, text,
  }

  -- What the goroutines share; `results` is chunkResults.
  pub record Shared : Type 0 where
    pub queue : List ℕ
    pub slots : ℕ
    pub failed : Option GoError
    pub world : World
    pub progress : Option TransferProgress
    pub results : List (ℕ × Text)

  -- ctx.Err of the group's context.
  unfoldable pub group_error : Shared → Option GoError
  group_error u = if is_some u.failed then some (sentinel canceled) else context_error u.world

  -- A goroutine returns; with the deferred release of its slot.
  unfoldable pub leave : Option GoError → Shared → Shared × Phase
  leave e u = (record u { failed = first_error u.failed e; slots = u.slots - 1 }, finished)

  -- It returns, and closes its client first.
  unfoldable pub leave_connected : Option GoError → Shared → Shared × Phase
  unfolding leave
  leave_connected e u = leave e (record u { world = close_worker u.world })

  connected : World × Option GoError → Shared → Shared × Phase
  unfolding leave
  connected (w, none) u = (record u { world = w }, ready)
  connected (w, some e) u =
      leave (some (wrap (codes "connect worker: ") e)) (record u { world = close_worker w })

  created : World × Option GoError → Shared → Shared × Phase
  unfolding connected leave
  created (w, none) u = connected (connect_worker w) u
  created (w, some e) u = leave (some (wrap (codes "create worker: ") e)) (record u { world = w })

  -- The outcome of the select, if it takes the slot, and with the error of the context.
  unfoldable pub selected : Bool → Option GoError → Shared → Shared × Phase
  selected true e u = (record u { slots = u.slots + 1 }, acquired)
  selected false none u = (u, starting)
  selected false (some e) u = (record u { failed = first_error u.failed (some e) }, finished)

  -- What copyFileParallel has come to under a schedule: it has returned, with an error or
  -- without, or it waits for its workers.
  pub data Outcome : Type 0 where
    returned : Option GoError → Shared → Outcome
    not_started : GoError → World → Outcome
    waiting : Shared → List Phase → Outcome

  -- g.Wait.
  unfoldable pub group_wait : Shared × List Phase → Outcome
  group_wait s = if all_finished s.1 then returned s.0.failed s.0 else waiting s.0 s.1

  module _ (opt : FileTransferOptions) (path : Text) where
    -- The select of a slot or the context's end; `c` decides if both are there.
    unfoldable pub take_slot : Bool → Shared → Shared × Phase
    unfolding selected group_error
    take_slot c u =
        selected (ltb u.slots opt.max_concurrency && (c || not (is_some (group_error u))))
          (group_error u) u

    unfoldable pub take_job : List ℕ → Shared → Shared × Phase
    unfolding leave_connected
    take_job [] u = leave_connected none u
    take_job (i ∷ queue) u = (record u { queue = queue }, holding i)

    -- After the Execute of a chunk.
    uploaded : ℕ → Text → World × Option GoError → Shared → Shared × Phase
    unfolding leave_connected
    uploaded i chunk (w, some e) u =
        leave_connected (some (wrap (codes "failed to upload chunk: ") e)) (record u { world = w })
    uploaded i chunk (w, none) u = (
      record u {
        world = w;
        results = if opt.verify_checksum then (i, chunk) ∷ u.results else u.results;
        progress = update (length chunk) u.progress;
      },
      ready,
    )

    send_chunk : ℕ → Text → Shared → Shared × Phase
    unfolding uploaded chunk_timeout_of leave_connected
    send_chunk i chunk u =
        let chunk_b64 = base64 chunk in
        if ltb max_chunk_base64_size (length chunk_b64)
        then leave_connected (some (message (codes "chunk too large after encoding"))) u
        else uploaded i chunk
            (worker_execute (chunk_timeout_of opt)
              (generate_offset_write_script path (i * opt.chunk_size) chunk_b64) u.world)
            u

    -- The bytes read, and the error of the read unless it is io.EOF.
    chunk_read : ℕ → Text → Option GoError → Shared → Shared × Phase
    unfolding send_chunk leave_connected
    chunk_read i chunk (some e) u = leave_connected (some (wrap (codes "read chunk: ") e)) u
    chunk_read i chunk none u = if length chunk == 0 then (u, ready) else send_chunk i chunk u

    -- With the context's error.
    job_checked : ℕ → Option GoError → Shared → Shared × Phase
    unfolding chunk_read read_error leave_connected
    job_checked i (some e) u = leave_connected (some e) u
    job_checked i none u =
        let r = read_at opt.chunk_size (i * opt.chunk_size) in chunk_read i r.0 (read_error r.1) u

    unfoldable pub upload_chunk : ℕ → Shared → Shared × Phase
    unfolding job_checked group_error
    upload_chunk i u = job_checked i (group_error u) u

    unfoldable pub advance : Bool → Phase → Shared → Shared × Phase
    unfolding take_slot created take_job upload_chunk
    advance c starting u = take_slot c u
    advance c acquired u = created (create_worker u.world) u
    advance c ready u = take_job u.queue u
    advance c (holding i) u = upload_chunk i u
    advance c finished u = (u, finished)

    -- The worker at this place moves.
    unfoldable pub step : Shared → List Phase → ℕ → Bool → Shared × List Phase
    unfolding advance
    step u [] i c = (u, [])
    step u (p ∷ ps) zero c = let r = advance c p u in (r.0, r.1 ∷ ps)
    step u (p ∷ ps) (suc i) c = let r = step u ps i c in (r.0, p ∷ r.1)

    unfoldable pub run : Shared × List Phase → List (ℕ × Bool) → Shared × List Phase
    unfolding step
    run s [] = s
    run s ((i, c) ∷ schedule) = run (step s.0 s.1 i c) schedule

    -- The error of a failed pre-allocation.
    unfoldable pub preallocation_error : GoError → GoError
    preallocation_error e =
        if contains (error_text text e) (codes "Access is denied")
        then message (codes "initialization failed: permission denied")
        else message (codes "initialization failed: remote operation error")

    -- The workers and what they share when they are started.
    unfoldable pub launch : ℕ → Option TransferProgress → World → Shared × List Phase
    unfolding num_chunks jobs_from
    launch total progress w =
        let chunks = num_chunks total opt.chunk_size in
        (
          record {
            queue = jobs_from 0 chunks;
            slots = 0;
            failed = none;
            world = w;
            progress = progress;
            results = [];
          },
          replicate (clamp chunks opt.max_concurrency) starting,
        )

    preallocated : List (ℕ × Bool) → ℕ → Option TransferProgress → World × Option GoError → Outcome
    unfolding launch run group_wait preallocation_error
    preallocated schedule total progress (w, some e) = not_started (preallocation_error e) w
    preallocated schedule total progress (w, none) =
        group_wait (run (launch total progress w) schedule)

    unfoldable pub copy_file_parallel :
        List (ℕ × Bool) → ℕ → Option TransferProgress → World → Outcome
    unfolding preallocated
    copy_file_parallel schedule total progress w =
        preallocated schedule total progress (execute (generate_preallocate_script path total) w)
