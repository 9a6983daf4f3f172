-- ===== src/Transfer/Fetch.antt =====
-- client/filetransfer.go: FetchFile. The remote side, the local files and the hash are parameters; a
-- size below 0 is not modelled, and the texts of errors leave out numbers and names.
pub mod Chunks
pub mod Delivery
mod Examples
use go_psrp.Common.{
  ℕ, zero, suc, ◌+◌, ◌-◌, ◌*◌, Bool, true, false, Option, none, some, List, [], ◌∷◌, ◌++◌,
  if◌then◌else◌, ltb, ◌==◌, length,
}
use go_psrp.Common.State.{Result, ok, err}
use go_psrp.Common.Text.{Text, codes, is_empty, contains, equal_fold}
use go_psrp.Common.Base64.{base64_decode}
use go_psrp.Common.Errors.{GoError, Sentinel, message, wrap, error_text}
use go_psrp.Session.Settings.{TransportType}
use go_psrp.Transfer.Options.{
  FileTransferOptions, FileTransferOption, default_options_for, apply_options, too_large,
  num_chunks,
}
use go_psrp.Transfer.Progress.{TransferProgress, new_progress, update}
use go_psrp.Transfer.Scripts.{validate_paths, size_script, read_script, fetch_hash_script}
use go_psrp.Transfer.Output.{Value, number, string, ps_object, other, trim_space, output_text}

-- What is called: Execute with the first value of the output, if there is one; ctx.Err; os.Create,
-- and the file's Write and Close; Sscanf with %d; fmt's %v; the hash as hexadecimal digits;
-- filepath.Clean; the texts of the sentinel errors.
pub record Services : Type 1 where
  pub World : Type 0
  pub execute : Text → World → World × Result GoError (Option Value)
  pub context_error : World → Option GoError
  pub create : Text → World → World × Option GoError
  pub write : Text → World → World × Option GoError
  pub close : World → World × Option GoError
  pub scan_int : Text → Result GoError ℕ
  pub shown : Value → Text
  pub sha256_hex : Text → Text
  pub clean : Text → Text
  pub text : Sentinel → Text

module _ (services : Services) where
  open services use {
    World, execute, context_error, create, write, close, scan_int, shown, sha256_hex, clean, text,
  }

  unfoldable pub parse_size : Option Value → Result GoError ℕ
  parse_size none = ok 0
  parse_size (some (number n)) = ok n
  parse_size (some (string s)) = elim (scan_int (trim_space s)) [
    | ok n ↦ ok n
    | err e ↦ err (wrap (codes "failed to parse file size: ") e)
  ]
  parse_size (some v) = err (message (codes "unexpected file size type"))

  unfoldable pub size_error : GoError → GoError
  size_error e =
      if contains (error_text text e) (codes "Cannot find path")
      then message (codes "remote file not found")
      else message (codes "failed to get remote file size: remote operation error")

  -- `hashed` is what the hasher was given.
  pub record Fetching : Type 0 where
    pub world : World
    pub hashed : Text
    pub progress : Option TransferProgress

  module _ (opt : FileTransferOptions) (path : Text) where
    -- After the write of a chunk.
    written : Text → World × Option GoError → Fetching → Fetching × Option GoError
    written chunk (w, some e) f =
        (record f { world = w }, some (wrap (codes "failed to write chunk: ") e))
    written chunk (w, none) f = (
      record {
        world = w;
        hashed = if opt.verify_checksum then f.hashed ++ chunk else f.hashed;
        progress = update (length chunk) f.progress;
      },
      none,
    )

    decoded : Option Text → Fetching → Fetching × Option GoError
    unfolding written
    decoded none f = (f, some (message (codes "failed to decode chunk")))
    decoded (some chunk) f = written chunk (write chunk f.world) f

    answered : Result GoError (Option Value) → Fetching → Fetching × Option GoError
    unfolding decoded output_text
    answered (err e) f =
        (f, some (message (codes "failed to download chunk: remote operation error")))
    answered (ok v) f =
        let b64_data = output_text shown v in
        if is_empty b64_data
        then (f, some (message (codes "chunk returned empty data")))
        else decoded (base64_decode b64_data) f

    -- The length of the chunk at an offset.
    unfoldable pub chunk_length : ℕ → ℕ → ℕ
    chunk_length total offset =
        if ltb total (offset + opt.chunk_size) then total - offset else opt.chunk_size

    -- With the context's error.
    chunk_checked : ℕ → ℕ → Option GoError → Fetching → Fetching × Option GoError
    unfolding answered chunk_length
    chunk_checked total i (some e) f = (f, some (wrap (codes "transfer cancelled: ") e))
    chunk_checked total i none f =
        let offset = i * opt.chunk_size in
        let r = execute (read_script path offset (chunk_length total offset)) f.world in
        answered r.1 (record f { world = r.0 })

    unfoldable pub fetch_chunk : ℕ → ℕ → Fetching → Fetching × Option GoError
    unfolding chunk_checked
    fetch_chunk total i f = chunk_checked total i (context_error f.world) f

    fetched :
        (Fetching → Fetching × Option GoError)
        → Fetching × Option GoError
        → Fetching × Option GoError
    fetched again (f, some e) = (f, some e)
    fetched again (f, none) = again f

    -- The chunks from the i-th on, so many of them.
    unfoldable pub fetch_chunks : ℕ → ℕ → ℕ → Fetching → Fetching × Option GoError
    unfolding fetched fetch_chunk
    fetch_chunks total i zero f = (f, none)
    fetch_chunks total i (suc n) f = fetched (fetch_chunks total (i + 1) n) (fetch_chunk total i f)

    hash_answered : Text → World × Result GoError (Option Value) → World × Option GoError
    unfolding output_text
    hash_answered local_hash (w, err e) =
        (w, some (message (codes "failed to verify checksum: remote operation error")))
    hash_answered local_hash (w, ok v) =
        if equal_fold (output_text shown v) local_hash
        then (w, none)
        else (w, some (message (codes "checksum mismatch!")))

    unfoldable pub verify : Fetching × Option GoError → World × Option GoError
    unfolding hash_answered
    verify (f, some e) = (f.world, some e)
    verify (f, none) =
        if opt.verify_checksum
        then hash_answered (sha256_hex f.hashed) (execute (fetch_hash_script path) f.world)
        else (f.world, none)

    -- With the deferred close of the local file, whose error is lost.
    closed : World × Option GoError → World × Option GoError
    closed (w, e) = ((close w).0, e)

    created : ℕ → World × Option GoError → World × Option GoError
    unfolding closed verify fetch_chunks new_progress
    created total (w, some e) = (w, some (wrap (codes "failed to create local file: ") e))
    created total (w, none) = closed (
        verify (
          fetch_chunks total 0 (num_chunks total opt.chunk_size) (record {
            world = w;
            hashed = [];
            progress = new_progress opt.progress_callback total;
          })))

    empty_closed : World × Option GoError → World × Option GoError
    empty_closed (w, none) = (w, none)
    empty_closed (w, some e) = (w, some (wrap (codes "failed to close local file: ") e))

    empty_created : World × Option GoError → World × Option GoError
    unfolding empty_closed
    empty_created (w, some e) = (w, some (wrap (codes "failed to create local file: ") e))
    empty_created (w, none) = empty_closed (close w)

    unfoldable pub sized : Text → Result GoError ℕ → World → World × Option GoError
    unfolding empty_created created
    sized local (err e) w = (w, some e)
    sized local (ok total) w =
        if total == 0
        then empty_created (create local w)
        else if too_large opt total
        then (w, some (message (codes "remote file too large")))
        else created total (create local w)

    size_answered : Text → World × Result GoError (Option Value) → World × Option GoError
    unfolding size_error parse_size sized
    size_answered local (w, err e) = (w, some (size_error e))
    size_answered local (w, ok v) = sized local (parse_size v) w

    paths_checked : Text → Option GoError → World → World × Option GoError
    unfolding size_answered
    paths_checked local (some e) w = (w, some (wrap (codes "path validation failed: ") e))
    paths_checked local none w = size_answered local (execute (size_script path) w)

    unfoldable pub fetch : Text → World → World × Option GoError
    unfolding paths_checked
    fetch local w = paths_checked local (validate_paths clean local path) w

  unfoldable pub fetch_file :
      TransportType → Text → Text → List FileTransferOption → World → World × Option GoError
  unfolding fetch apply_options default_options_for
  fetch_file transport path local opts w =
      fetch (apply_options opts (default_options_for transport)) path local w
