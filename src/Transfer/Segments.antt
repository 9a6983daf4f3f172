-- ===== src/Transfer/Segments.antt =====
-- client/filetransfer.go: copyFileParallelHvSocket, which gives each worker a segment of the file.
-- A worker's goroutine runs on its own world, with its own progress; the rate limit and the waits between its attempts to
-- connect are steps of that world. Numbers in the texts of errors are left out.
pub mod Sending
pub mod Tiling
pub mod Joining
mod Examples
use go_psrp.Common.{
  List, [], ◌∷◌, is_some, ℕ, zero, suc, ◌+◌, ◌-◌, ◌*◌, ◌/◌, Bool, true, false, Option, none, some,
  ◌++◌, if◌then◌else◌, ltb, ◌==◌, length,
}
use go_psrp.Common.Text.{Text, codes, base64, decimal}
use go_psrp.Common.Errors.{GoError, wrap, message}
use go_psrp.Transfer.Options.{num_chunks}
use go_psrp.Transfer.Progress.{TransferProgress, update}
use go_psrp.Transfer.Scripts.{preallocate_shared_script, segment_script}
use go_psrp.Transfer.Upload.{read_error}

-- The number of the workers: fewer than asked for if the file has less than 1 MiB for each.
unfoldable pub stream_count : ℕ → ℕ → ℕ
stream_count total asked =
    if ltb total (asked * 1024 * 1024)
    then (let reduced = total / (1024 * 1024) in if ltb reduced 1 then 1 else reduced)
    else asked

unfoldable pub segment_size : ℕ → ℕ → ℕ
segment_size total count = total / count

unfoldable pub start_offset : ℕ → ℕ → ℕ → ℕ
unfolding segment_size
start_offset total count i = i * segment_size total count

-- The last worker takes the rest.
unfoldable pub end_offset : ℕ → ℕ → ℕ → ℕ
unfolding start_offset segment_size
end_offset total count i =
    if i == count - 1 then total else start_offset total count i + segment_size total count

abbrev pub stream_chunk : ℕ
stream_chunk = 64 * 1024

-- The size of the next read, clamped to what is left of the segment.
unfoldable pub to_read : ℕ → ℕ → ℕ
to_read size k =
    let remaining = size - k * stream_chunk in
    if ltb remaining stream_chunk then remaining else stream_chunk

-- What is called: Execute of the client; for a worker CreateWorker, Connect, Close, the wait before another attempt, the stream's
-- start, SendInput, CloseInput, Cancel and Wait, the limiter's Wait, the context's error,
-- ReadAt with the size of the buffer and the offset, and the reading of the file for VerifyChecksum.
pub record Services : Type 1 where
  pub World : Type 0
  pub execute : Text → World → World × Option GoError
  pub create_worker : World → World × Option GoError
  pub connect_worker : World → World × Option GoError
  pub close_worker : World → World
  pub pause : ℕ → World → World
  pub start : Text → World → World × Option GoError
  pub send_input : Text → World → World × Option GoError
  pub close_input : World → World
  pub cancel : World → World
  pub wait : World → World × Option GoError
  pub limit : ℕ → World → World
  pub context_error : World → Option GoError
  pub read_at : ℕ → ℕ → Text × Option GoError
  pub read_again : Option GoError

module _ (services : Services) where
  open services use {
    World, execute, create_worker, connect_worker, close_worker, pause, start, send_input,
    close_input, cancel, wait, limit, context_error, read_at,
  }

  pub record Streaming : Type 0 where
    pub world : World
    pub progress : Option TransferProgress

  -- One attempt to connect, and the next ones if it fails; `attempt` is the number of the attempt,
  -- and the error is that of the last one.
  unfoldable pub connect_attempts : ℕ → ℕ → Option GoError → World → World × Option GoError
  connect_attempts attempt zero e w = (w, e)
  connect_attempts attempt (suc n) e w =
      let w' = if ltb 1 attempt then pause attempt w else w in
      let (w'', failed) = connect_worker w' in
      let again = connect_attempts (attempt + 1) n failed w'' in
      elim failed [ none ↦ (w'', none) | some x ↦ again ]

  -- After SendInput.
  sent :
      (Streaming → Streaming × Option GoError)
      → ℕ
      → World × Option GoError
      → Streaming
      → Streaming × Option GoError
  sent again n (w, some e) s =
      (record s { world = w }, some (wrap (codes "worker send failed: ") e))
  sent again n (w, none) s = again (record s { world = w; progress = update n s.progress })

  chunk_read :
      (Streaming → Streaming × Option GoError)
      → Text
      → Option GoError
      → Streaming
      → Streaming × Option GoError
  unfolding sent
  chunk_read again chunk (some e) s = (s, some (wrap (codes "worker read failed: ") e))
  chunk_read again chunk none s =
      if length chunk == 0
      then (s, none)
      else sent again (length chunk) (send_input chunk s.world) s

  checked :
      (Streaming → Streaming × Option GoError)
      → ℕ
      → ℕ
      → ℕ
      → Option GoError
      → Streaming
      → Streaming × Option GoError
  unfolding chunk_read read_error to_read
  checked again first size k (some e) s = (s, some e)
  checked again first size k none s =
      let w = limit stream_chunk s.world in
      let r = read_at (to_read size k) (first + k * stream_chunk) in
      chunk_read again r.0 (read_error r.1) (record s { world = w })

  -- The chunks of a segment from the k-th on, so many of them.
  unfoldable pub send_segment : ℕ → ℕ → ℕ → ℕ → Streaming → Streaming × Option GoError
  unfolding checked
  send_segment first size k zero s = (s, none)
  send_segment first size k (suc n) s =
      checked (send_segment first size (k + 1) n) first size k (context_error s.world) s

  -- After the sending: its error cancels the stream, otherwise the script is waited for.
  settled : Streaming × Option GoError → Streaming × Option GoError
  settled (s, some e) = (record s { world = cancel (close_input s.world) }, some e)
  settled (s, none) =
      let (w, e) = wait (close_input s.world) in
      (
        record s { world = w },
        elim e [ none ↦ none | some x ↦ some (wrap (codes "worker script error: ") x) ],
      )

  module _ (path : Text) (total count i : ℕ) where
    started : World × Option GoError → Option TransferProgress → Streaming × Option GoError
    unfolding settled send_segment start_offset end_offset num_chunks
    started (w, e) progress =
        let s : Streaming = record { world = w; progress = progress } in
        let first = start_offset total count i in
        let size = end_offset total count i - first in
        elim e [
          | some x ↦ (s, some (wrap (codes "worker start stream failed: ") x))
          | none ↦ settled (send_segment first size 0 (num_chunks size stream_chunk) s)
        ]

    -- With the deferred close of the worker's client.
    closed : Streaming × Option GoError → Streaming × Option GoError
    closed (s, e) = (record s { world = close_worker s.world }, e)

    connected : World × Option GoError → Option TransferProgress → Streaming × Option GoError
    unfolding started closed segment_script start_offset
    connected (w, some e) progress =
        let s : Streaming = record { world = close_worker w; progress = progress } in
        (s, some (wrap (codes "worker connect failed after 3 attempts: ") e))
    connected (w, none) progress =
        closed (started (start (segment_script path (start_offset total count i)) w) progress)

    -- After CreateWorker.
    created : World × Option GoError → Option TransferProgress → Streaming × Option GoError
    unfolding connected connect_attempts
    created (w, some e) progress =
        let s : Streaming = record { world = w; progress = progress } in
        (s, some (wrap (codes "worker create failed: ") e))
    created (w, none) progress = connected (connect_attempts 1 3 none w) progress

    -- The goroutine of the i-th worker.
    unfoldable pub worker : Option TransferProgress → World → Streaming × Option GoError
    unfolding created
    worker progress w = created (create_worker w) progress

-- The error of the group: that of the first goroutine that returns one, in the order in which they
-- return.
abbrev pub first_failure : List ℕ → (ℕ → Option GoError) → Option GoError
first_failure [] e = none
first_failure (i ∷ order) e =
    let rest = first_failure order e in if is_some (e i) then e i else rest

module _ (services : Services) (path : Text) (total : ℕ) where
  open services use {World, execute, read_again}

  -- After the pre-allocation.
  preallocated :
      ℕ
      → List ℕ
      → (ℕ → World)
      → Option TransferProgress
      → World × Option GoError
      → World × Option GoError
  unfolding worker
  preallocated count order worlds progress (w, some e) =
      (w, some (wrap (codes "pre-allocation failed: ") e))
  preallocated count order worlds progress (w, none) =
      (w, first_failure order (λ i. (worker services path total count i progress (worlds i)).1))

  -- With VerifyChecksum, the file is read again, and nothing is compared.
  unfoldable pub verified : Bool → World × Option GoError → World × Option GoError
  verified check (w, some e) = (w, some e)
  verified check (w, none) =
      let failed : Option GoError = elim read_again [
        | none ↦ none
        | some x ↦ some (
            message
              (codes "VerifyChecksum not fully optimized for parallel yet - skipped for speed"))
      ] in
      (w, if check then failed else none)

  -- With MaxConcurrency, VerifyChecksum, the order in which the workers return and their worlds. The
  -- step of the shared progress to 100 % at the end is left out.
  unfoldable pub copy_file_parallel_hv_socket :
      ℕ → Bool → List ℕ → (ℕ → World) → Option TransferProgress → World → World × Option GoError
  unfolding preallocated verified stream_count preallocate_shared_script
  copy_file_parallel_hv_socket asked check order worlds progress w = verified check (
      preallocated (stream_count total asked) order worlds progress
        (execute (preallocate_shared_script path total) w))
