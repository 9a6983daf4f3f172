-- ===== src/Transfer/Streaming.antt =====
-- client/filetransfer.go: copyFileStreaming, which sends the chunks of a file as the input of one
-- pipeline. The pipeline, the file and the hash are parameters; what drains the output streams is
-- left out, and so are numbers in the texts of errors.
pub mod Delivery
mod Examples
use go_psrp.Common.{
  ℕ, zero, suc, ◌*◌, Bool, true, false, ◌&&◌, Option, none, some, [], ◌++◌, if◌then◌else◌, ltb,
  ◌==◌, is_some, length,
}
use go_psrp.Common.State.{Result, ok, err}
use go_psrp.Common.Text.{Text, codes, contains, equal_fold}
use go_psrp.Common.Errors.{GoError, Sentinel, message, wrap, error_text}
use go_psrp.Transfer.Options.{FileTransferOptions, num_chunks, second}
use go_psrp.Transfer.Progress.{TransferProgress, update, complete}
use go_psrp.Transfer.Scripts.{streaming_script, streaming_hash_script}
use go_psrp.Transfer.Output.{Value, streaming_output_text}
use go_psrp.Transfer.Upload.{read_error}

-- What is called: ExecuteStreamWithInput and the stream's SendInput, CloseInput (whose error is
-- logged), Cancel and Wait; Execute with the first value of the output; ctx.Err; the file's Read
-- with the size of the buffer. `wait` has the limit of the timer, and answers with none if the timer
-- or the context ends first.
pub record Services : Type 1 where
  pub World : Type 0
  pub start : Text → World → World × Option GoError
  pub send_input : Text → World → World × Option GoError
  pub close_input : World → World
  pub cancel : World → World
  pub wait : ℕ → World → World × Option (Option GoError)
  pub execute : Text → World → World × Result GoError (Option Value)
  pub context_error : World → Option GoError
  pub read : ℕ → World → World × Text × Option GoError
  pub shown : Value → Text
  pub sha256_hex : Text → Text
  pub text : Sentinel → Text

-- The limit for the end of the pipeline.
unfoldable pub wait_timeout : ℕ → ℕ → ℕ
wait_timeout chunks chunk_timeout =
    let total = chunks * chunk_timeout in
    let given = if total == 0 then 10 * 60 * second else total in
    if ltb given (2 * 60 * second) then 2 * 60 * second else given

module _ (services : Services) where
  open services use {
    World, start, send_input, close_input, cancel, wait, execute, context_error, read, shown,
    sha256_hex, text,
  }

  -- `hashed` is what the hasher was given.
  pub record Sending : Type 0 where
    pub world : World
    pub hashed : Text
    pub progress : Option TransferProgress

  module _ (opt : FileTransferOptions) (path : Text) where
    -- After SendInput.
    sent :
        (Sending → Sending × Option GoError)
        → Text
        → World × Option GoError
        → Sending
        → Sending × Option GoError
    sent again chunk (w, some e) s = (record s { world = w }, some (wrap (codes "send chunk: ") e))
    sent again chunk (w, none) s =
        again (record s { world = w; progress = update (length chunk) s.progress })

    -- After Read: its bytes and its error, unless that is io.EOF.
    chunk_read :
        (Sending → Sending × Option GoError)
        → Text
        → Option GoError
        → Sending
        → Sending × Option GoError
    unfolding sent
    chunk_read again chunk (some e) s = (s, some (wrap (codes "read chunk: ") e))
    chunk_read again chunk none s =
        let hashed = if opt.verify_checksum then s.hashed ++ chunk else s.hashed in
        let s' = record s { hashed = hashed } in
        if length chunk == 0 then (s, none) else sent again chunk (send_input chunk s.world) s'

    -- With the context's error.
    checked :
        (Sending → Sending × Option GoError) → Option GoError → Sending → Sending × Option GoError
    unfolding chunk_read read_error
    checked again (some e) s = (s, some e)
    checked again none s =
        let r = read opt.chunk_size s.world in
        chunk_read again r.1 (read_error r.2) (record s { world = r.0 })

    -- The loop, for so many chunks.
    unfoldable pub send_chunks : ℕ → Sending → Sending × Option GoError
    unfolding checked
    send_chunks zero s = (s, none)
    send_chunks (suc n) s = checked (send_chunks n) (context_error s.world) s

    -- The end of the sending function: the last update of the progress, and the deferred close.
    finish_sending : ℕ → Sending × Option GoError → Sending × Option GoError
    unfolding complete
    finish_sending total (s, none) =
        (record s { progress = complete total s.progress; world = close_input s.world }, none)
    finish_sending total (s, some e) = (record s { world = close_input s.world }, some e)

    waited : World × Option (Option GoError) → World × Option GoError
    waited (w, some e) = (w, e)
    waited (w, none) = (cancel w, some (message (codes "stream execution timeout")))

    hash_answered : Text → World × Result GoError (Option Value) → World × Option GoError
    unfolding streaming_output_text
    hash_answered local_hash (w, err e) =
        (w, some (wrap (codes "verify checksum execution failed: ") e))
    hash_answered local_hash (w, ok v) =
        if equal_fold local_hash (streaming_output_text shown v)
        then (w, none)
        else (w, some (message (codes "checksum mismatch!")))

    -- What is returned, by the error of the sending and that of the pipeline.
    conclude : Text → Option GoError → World × Option GoError → World × Option GoError
    unfolding hash_answered
    conclude hashed none (w, some e) = (w, some (wrap (codes "stream execution failed: ") e))
    conclude hashed none (w, none) =
        if opt.verify_checksum
        then hash_answered (sha256_hex hashed) (execute (streaming_hash_script path) w)
        else (w, none)
    conclude hashed (some send) (w, none) = (w, some send)
    conclude hashed (some send) (w, some e) =
        if contains (error_text text send) (codes "invalid pipeline state")
        then (w, some (wrap (codes "transfer failed: ") e))
        else (w, some send)

    -- After the sending: a failure cancels the pipeline; then it is waited for.
    settled : ℕ → Sending × Option GoError → Sending × Option GoError
    unfolding conclude waited wait_timeout
    settled chunks (s, e) =
        let w = if is_some e then cancel s.world else s.world in
        let r = conclude s.hashed e (waited (wait (wait_timeout chunks opt.chunk_timeout) w)) in
        (record s { world = r.0 }, r.1)

    started : ℕ → Option TransferProgress → World × Option GoError → Sending × Option GoError
    unfolding settled finish_sending send_chunks num_chunks
    started total progress (w, e) =
        let s : Sending = record { world = w; hashed = []; progress = progress } in
        let chunks = num_chunks total opt.chunk_size in
        elim e [
          | some x ↦ (s, some (wrap (codes "start stream: ") x))
          | none ↦ settled chunks (finish_sending total (send_chunks chunks s))
        ]

    unfoldable pub copy_file_streaming :
        ℕ → Option TransferProgress → World → Sending × Option GoError
    unfolding started streaming_script
    copy_file_streaming total progress w =
        started total progress (start (streaming_script path opt.no_overwrite total) w)
