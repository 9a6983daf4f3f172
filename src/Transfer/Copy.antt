-- ===== src/Transfer/Copy.antt =====
-- client/filetransfer.go: CopyFile, which checks the paths and the file and picks the way to copy.
-- The three ways are parameters here; Upload, Segments and Streaming are about them.
use go_psrp.Common.{
  ℕ, ◌*◌, ◌≡◌, Bool, true, false, ◌&&◌, not, Option, none, some, List, arith, if◌then◌else◌, ltb,
}
use go_psrp.Common.State.{Result, ok, err}
use go_psrp.Common.Text.{Text, codes}
use go_psrp.Common.Errors.{GoError, message, wrap}
use go_psrp.Session.Settings.{TransportType, wsman, hv_socket}
use go_psrp.Transfer.Options.{
  FileTransferOptions, FileTransferOption, default_options_for, apply_options, too_large,
  num_chunks,
}
use go_psrp.Transfer.Progress.{TransferProgress, new_progress}
use go_psrp.Transfer.Scripts.{validate_paths}

-- What Stat tells of a file.
pub record Stat : Type 0 where
  pub regular : Bool
  pub size : ℕ

-- What is called: os.Open, Stat and Close of the file, filepath.Clean, and the three ways to copy.
pub record Ways : Type 1 where
  pub World : Type 0
  pub open_file : Text → World → World × Option GoError
  pub stat : World → Result GoError Stat
  pub close_file : World → World
  pub clean : Text → Text
  pub copy_file_streaming :
      FileTransferOptions → ℕ → Option TransferProgress → World → World × Option GoError
  pub copy_file_parallel :
      FileTransferOptions → ℕ → Option TransferProgress → World → World × Option GoError
  pub copy_file_parallel_hv_socket :
      FileTransferOptions → ℕ → Option TransferProgress → World → World × Option GoError

abbrev pub is_hv_socket : TransportType → Bool
is_hv_socket hv_socket = true
is_hv_socket wsman = false

-- No parallel upload over HvSocket, at first.
unfoldable pub limit_concurrency : TransportType → FileTransferOptions → FileTransferOptions
limit_concurrency t opt =
    if is_hv_socket t && ltb 1 opt.max_concurrency then record opt { max_concurrency = 1 } else opt

unfoldable pub force_two : FileTransferOptions → FileTransferOptions
force_two opt = if ltb opt.max_concurrency 2 then record opt { max_concurrency = 2 } else opt

unfoldable pub small_chunks : FileTransferOptions → FileTransferOptions
small_chunks opt =
    if ltb (16 * 1024) opt.chunk_size then record opt { chunk_size = 16 * 1024 } else opt

module _ (ways : Ways) where
  open ways use {
    World, open_file, stat, close_file, clean, copy_file_streaming, copy_file_parallel,
    copy_file_parallel_hv_socket,
  }

  named : World × Option GoError → World × Option GoError
  named (w, none) = (w, none)
  named (w, some e) = (w, some (wrap (codes "parallel hvsocket copy: ") e))

  -- The way over HvSocket, with the concurrency raised again, and the one over WSMan.
  unfoldable pub copy_by :
      TransportType
      → FileTransferOptions
      → ℕ
      → Option TransferProgress
      → World
      → World × Option GoError
  unfolding named force_two small_chunks num_chunks
  copy_by hv_socket opt total progress w =
      let opt' = force_two opt in
      if ltb 1 opt'.max_concurrency
      then named (copy_file_parallel_hv_socket opt' total progress w)
      else copy_file_streaming (small_chunks opt') total progress w
  copy_by wsman opt total progress w =
      if ltb 1 opt.max_concurrency && ltb 1 (num_chunks total opt.chunk_size)
      then copy_file_parallel opt total progress w
      else copy_file_streaming opt total progress w

  checked :
      TransportType → FileTransferOptions → Result GoError Stat → World → World × Option GoError
  unfolding copy_by too_large new_progress
  checked t opt (err e) w = (w, some (wrap (codes "failed to stat file: ") e))
  checked t opt (ok s) w =
      if not s.regular
      then (w, some (message (codes "source is not a regular file")))
      else if too_large opt s.size
      then (w, some (message (codes "file too large")))
      else copy_by t opt s.size (new_progress opt.progress_callback s.size) w

  opened : TransportType → FileTransferOptions → World × Option GoError → World × Option GoError
  unfolding checked
  opened t opt (w, some e) = (w, some (wrap (codes "failed to open local file: ") e))
  opened t opt (w, none) = let r = checked t opt (stat w) w in (close_file r.0, r.1)

  paths_checked :
      TransportType → FileTransferOptions → Text → Option GoError → World → World × Option GoError
  unfolding opened
  paths_checked t opt local (some e) w = (w, some (wrap (codes "path validation failed: ") e))
  paths_checked t opt local none w = opened t opt (open_file local w)

  unfoldable pub copy_file :
      TransportType → Text → Text → List FileTransferOption → World → World × Option GoError
  unfolding paths_checked limit_concurrency apply_options default_options_for validate_paths
  copy_file t local remote opts w =
      let opt = limit_concurrency t (apply_options opts (default_options_for t)) in
      paths_checked t opt local (validate_paths clean local remote) w

  -- Over HvSocket the way is always that of two or more parallel streams.
  copy_by-hv_socket :
      (opt : FileTransferOptions) (total : ℕ) (progress : Option TransferProgress) (w : World)
      → copy_by hv_socket opt total progress w
        ≡ named (copy_file_parallel_hv_socket (force_two opt) total progress w)
  unfolding copy_by force_two
  copy_by-hv_socket opt total progress w = ground arith
