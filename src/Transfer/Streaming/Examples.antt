-- ===== src/Transfer/Streaming/Examples.antt =====
-- client/filetransfer.go: copyFileStreaming of a file of two bytes.
use go_psrp.Common.{◌≡◌, refl, none, some, [], ◌++◌, take, drop, arith}
use go_psrp.Common.State.{ok}
use go_psrp.Common.Text.{Text, codes}
use go_psrp.Transfer.Options.{num_chunks}
use go_psrp.Transfer.Output.{string, streaming_output_text}
use go_psrp.Transfer.Cases.{path, hi, options}
use go_psrp.Transfer.Streaming.{Services, send_chunks, copy_file_streaming}
use go_psrp.Transfer.Streaming.Delivery.{Honest, copy_file_streaming-delivers}

-- The world is the input of the pipeline and what is left to read; each file has the same hash.
abbrev streaming : Services
streaming = record {
  World = Text × Text;
  start = λ script w. (([], w.1), none);
  send_input = λ chunk w. ((w.0 ++ chunk, w.1), none);
  close_input = λ w. w;
  cancel = λ w. w;
  wait = λ limit w. (w, some none);
  execute = λ script w. (w, ok (some (string (codes "C0FFEE\r\n"))));
  context_error = λ w. none;
  read = λ n w. ((w.0, drop n w.1), take n w.1, none);
  shown = λ v. [];
  sha256_hex = λ s. codes "c0ffee";
  text = λ s. [];
}

streaming-Honest : Honest streaming (λ w. w.0) (λ w. w.1)
streaming-Honest = record {
  reads = λ n w. refl;
  reads_rest = λ n w. refl;
  reads_input = λ n w. refl;
  sends = λ chunk w e. refl;
  sends_rest = λ chunk w. refl;
  starts = λ script w. refl;
  starts_rest = λ script w. refl;
  closes = λ w. refl;
  cancels = λ w. refl;
  waits = λ limit w. refl;
  executes = λ script w. refl;
}

copy_file_streaming-delivers_example :
    (copy_file_streaming streaming options path 2 none ([], hi)).0.world.0 ≡ hi
unfolding copy_file_streaming send_chunks num_chunks streaming_output_text
copy_file_streaming-delivers_example =
    copy_file_streaming-delivers streaming options path hi (λ w. w.0) (λ w. w.1) streaming-Honest
      (omega arith) none ([], hi) refl refl
