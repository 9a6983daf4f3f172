-- ===== src/Transfer/Segments/Examples.antt =====
-- client/filetransfer.go: copyFileParallelHvSocket of a file of two bytes with two workers asked for.
use go_psrp.Common.{ℕ, ◌<◌, ◌≡◌, refl, true, none, [], ◌∷◌, ◌++◌, take, drop, arith}
use go_psrp.Common.Text.{Text}
use go_psrp.Transfer.Cases.{path, hi}
use go_psrp.Transfer.Options.{num_chunks}
use go_psrp.Transfer.Segments.{
  Services, copy_file_parallel_hv_socket, stream_count, worker, start_offset, end_offset,
  segment_size, connect_attempts, send_segment,
}
use go_psrp.Transfer.Segments.Sending.{Honest}
use go_psrp.Transfer.Segments.Joining.{copy_file_parallel_hv_socket-assembles}
use go_psrp.Transfer.Segments.Tiling.{assemble, picked, Below}

-- The world is the input of the worker's stream.
abbrev segments : Services
segments = record {
  World = Text;
  execute = λ script w. (w, none);
  create_worker = λ w. (w, none);
  connect_worker = λ w. (w, none);
  close_worker = λ w. w;
  pause = λ n w. w;
  start = λ script w. ([], none);
  send_input = λ chunk w. (w ++ chunk, none);
  close_input = λ w. w;
  cancel = λ w. w;
  wait = λ w. (w, none);
  limit = λ n w. w;
  context_error = λ w. none;
  read_at = λ n offset. (take n (drop offset hi), none);
  read_again = none;
}

segments-Honest : Honest segments hi (λ w. w)
segments-Honest = record {
  reads = λ n offset. refl;
  sends = λ chunk w e. refl;
  starts = λ script w. refl;
  limits = λ n w. refl;
  ends = λ w. refl;
  cancels = λ w. refl;
  waits = λ w. refl;
  closes = λ w. refl;
}

few : (i : ℕ) → i < 1 → i ≡ 0
few i l = omega arith

zero_picked : (i : ℕ) → i < stream_count 2 2 → picked i (0 ∷ []) ≡ true
unfolding stream_count
zero_picked i l = ground arith

returns_none :
    (copy_file_parallel_hv_socket segments path 2 2 true (0 ∷ []) (λ i. []) none []).1 ≡ none
unfolding copy_file_parallel_hv_socket stream_count worker start_offset end_offset segment_size
    send_segment connect_attempts num_chunks
returns_none = refl

zero-Below : Below (stream_count 2 2) (0 ∷ [])
unfolding stream_count
zero-Below = (omega arith)

copy_file_parallel_hv_socket-assembles_example :
    assemble
      (start_offset 2 (stream_count 2 2))
      (λ i. (worker segments path 2 (stream_count 2 2) i none []).0.world)
      (0 ∷ [])
      (0 ∷ 0 ∷ [])
    ≡ hi
copy_file_parallel_hv_socket-assembles_example =
    copy_file_parallel_hv_socket-assembles segments path hi (λ w. w) segments-Honest 2 true (0 ∷ [])
      (0 ∷ []) (λ i. []) none [] (0 ∷ 0 ∷ []) (omega arith) zero_picked returns_none zero-Below
      zero_picked refl
