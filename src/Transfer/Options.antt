-- ===== src/Transfer/Options.antt =====
-- client/filetransfer.go: the options of a transfer, the limit on its size, and the number of
-- chunks. Sizes, counts and the chunk timeout (nanoseconds) are natural numbers; of the callback
-- only whether it is set is kept.
use go_psrp.Common.{ℕ, ◌+◌, ◌-◌, ◌*◌, ◌/◌, ◌^◌, Bool, false, ◌&&◌, List, [], ◌∷◌, if◌then◌else◌}
use go_psrp.Common.Int.{ℤ, pos, ltb_ℤ, is_zero_ℤ}
use go_psrp.Session.Settings.{TransportType, wsman, hv_socket}

pub record FileTransferOptions : Type 0 where
  pub chunk_size : ℕ
  pub max_concurrency : ℕ
  pub use_compression : Bool
  pub progress_callback : Bool
  pub verify_checksum : Bool
  pub timeout : ℤ
  pub chunk_timeout : ℕ
  pub max_file_size : ℤ
  pub no_overwrite : Bool

abbrev pub FileTransferOption : Type 0
FileTransferOption = FileTransferOptions → FileTransferOptions

unfoldable pub with_chunk_size : ℕ → FileTransferOption
with_chunk_size size o = record o { chunk_size = size }

unfoldable pub with_max_concurrency : ℕ → FileTransferOption
with_max_concurrency n o = record o { max_concurrency = n }

unfoldable pub with_compression : Bool → FileTransferOption
with_compression enabled o = record o { use_compression = enabled }

unfoldable pub with_progress_callback : Bool → FileTransferOption
with_progress_callback cb o = record o { progress_callback = cb }

unfoldable pub with_checksum_verification : Bool → FileTransferOption
with_checksum_verification enabled o = record o { verify_checksum = enabled }

unfoldable pub with_timeout : ℤ → FileTransferOption
with_timeout seconds o = record o { timeout = seconds }

unfoldable pub with_max_file_size : ℤ → FileTransferOption
with_max_file_size bytes o = record o { max_file_size = bytes }

unfoldable pub with_chunk_timeout : ℕ → FileTransferOption
with_chunk_timeout d o = record o { chunk_timeout = d }

unfoldable pub with_no_overwrite : Bool → FileTransferOption
with_no_overwrite no_overwrite o = record o { no_overwrite = no_overwrite }

abbrev pub second : ℕ
second = 10 ^ 9

unfoldable pub default_options : FileTransferOptions
default_options = record {
  chunk_size = 256 * 1024;
  max_concurrency = 4;
  use_compression = false;
  progress_callback = false;
  verify_checksum = false;
  timeout = pos 0;
  chunk_timeout = 60 * second;
  max_file_size = pos 0;
  no_overwrite = false;
}

unfoldable pub default_options_for : TransportType → FileTransferOptions
unfolding default_options
default_options_for hv_socket = record default_options {
  chunk_size = 1024 * 1024;
  max_concurrency = 4;
}
default_options_for wsman = record default_options { chunk_size = 256 * 1024 }

-- The options of a call, in their order.
unfoldable pub apply_options : List FileTransferOption → FileTransferOptions → FileTransferOptions
apply_options [] o = o
apply_options (f ∷ fs) o = apply_options fs (f o)

-- maxSize, from MaxFileSize.
unfoldable pub max_size : ℤ → ℤ
max_size given =
    let first = if is_zero_ℤ given then pos (1024 * 1024 * 1024) else given in
    if ltb_ℤ (pos 0) given then given else if ltb_ℤ given (pos 0) then pos 0 else first

unfoldable pub too_large : FileTransferOptions → ℕ → Bool
unfolding max_size
too_large opt size =
    let limit = max_size opt.max_file_size in ltb_ℤ (pos 0) limit && ltb_ℤ limit (pos size)

unfoldable pub num_chunks : ℕ → ℕ → ℕ
num_chunks total chunk = (total + chunk - 1) / chunk
