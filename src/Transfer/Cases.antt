-- ===== src/Transfer/Cases.antt =====
-- client/filetransfer.go: a file of two bytes and the options of its transfers, in chunks of one byte.
use go_psrp.Common.{true, false}
use go_psrp.Common.Int.{pos}
use go_psrp.Common.Text.{Text, codes}
use go_psrp.Transfer.Options.{FileTransferOptions}

abbrev pub path : Text
path = codes "C:\\x"

abbrev pub hi : Text
hi = codes "hi"

abbrev pub options : FileTransferOptions
options = record {
  chunk_size = 1;
  max_concurrency = 4;
  use_compression = false;
  progress_callback = true;
  verify_checksum = true;
  timeout = pos 0;
  chunk_timeout = 0;
  max_file_size = pos 0;
  no_overwrite = false;
}
