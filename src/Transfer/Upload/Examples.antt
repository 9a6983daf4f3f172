-- ===== src/Transfer/Upload/Examples.antt =====
-- client/filetransfer.go: copyFileParallel of a file of two bytes.
use go_psrp.Common.{
  ℕ, zero, suc, ◌*◌, ◌<◌, ◌≡◌, refl, Bool, true, Option, none, some, List, [], ◌∷◌, if◌then◌else◌,
  take, drop, replicate, arith,
}
use go_psrp.Common.Slices.{write_at}
use go_psrp.Common.Text.{Text, codes, text_eq, base64, decimal}
use go_psrp.Common.Errors.{GoError, message}
use go_psrp.Transfer.Options.{num_chunks}
use go_psrp.Transfer.Scripts.{generate_offset_write_script}
use go_psrp.Transfer.Cases.{path, hi, options}
use go_psrp.Transfer.Upload.{
  Services, Shared, copy_file_parallel, run, launch, group_wait, all_finished,
}
use go_psrp.Transfer.Upload.Writing.{Honest}
use go_psrp.Transfer.Upload.Delivery.{copy_file_parallel-delivers}
use go_psrp.Transfer.Upload.Steps.{Fair, joined}
use go_psrp.Transfer.Upload.Ending.{run-launch-ends}

-- A host that knows the scripts of the two chunks; the world is the remote file.
abbrev host_write : List (Text × (ℕ × Text)) → Text → Text → Text × Option GoError
host_write [] script w = (w, some (message (codes "unknown script")))
host_write ((known, (offset, chunk)) ∷ more) script w =
    let rest = host_write more script w in
    if text_eq known script then (write_at offset chunk w, none) else rest

abbrev chunk_script : ℕ → Text × (ℕ × Text)
chunk_script i =
    let chunk = take 1 (drop i hi) in
    (generate_offset_write_script path i (base64 chunk), (i, chunk))

abbrev uploading : Services
uploading = record {
  World = Text;
  execute = λ script w. (replicate 2 0, none);
  worker_execute = λ limit script w. host_write (chunk_script 0 ∷ chunk_script 1 ∷ []) script w;
  create_worker = λ w. (w, none);
  connect_worker = λ w. (w, none);
  close_worker = λ w. w;
  context_error = λ w. none;
  read_at = λ size offset. (take size (drop offset hi), none);
  text = λ s. [];
}

beyond : (i : ℕ) → ¬ (suc (suc i) * 1 < 2)
beyond i l = omega arith

-- A script of a chunk is found.
writes_chunk :
    (i : ℕ) (w : Text)
    → i * 1 < 2
    → let chunk = take 1 (drop (i * 1) hi) in
      let script = generate_offset_write_script path (i * 1) (base64 chunk) in
      let r = host_write (chunk_script 0 ∷ chunk_script 1 ∷ []) script w in
      r.0 ≡ write_at (i * 1) chunk w
unfolding generate_offset_write_script base64 decimal
writes_chunk zero w l = refl
writes_chunk (suc zero) w l = refl
writes_chunk (suc (suc i)) w l = absurd (beyond i l)

uploading-Honest : Honest uploading options path hi (λ w. w)
uploading-Honest = record {
  reads = λ i. refl;
  writes = λ i w l e. writes_chunk i w l;
  allocates = λ w e. refl;
  creates = λ w. refl;
  connects = λ w. refl;
  closes = λ w. refl;
}

-- Two workers, one step each in turn.
abbrev turns : ℕ → List (List (ℕ × Bool))
turns zero = []
turns (suc n) = ((0, true) ∷ (1, true) ∷ []) ∷ turns n

-- What the workers share in the end.
final : Shared uploading
final = (run uploading options path (launch uploading options path 2 none []) (joined (turns 10))).0

copy_file_parallel-delivers_example : final.world ≡ hi
unfolding final copy_file_parallel run group_wait launch generate_offset_write_script base64 decimal
copy_file_parallel-delivers_example =
    copy_file_parallel-delivers uploading options path hi (λ w. w) uploading-Honest (omega arith)
      (joined (turns 10)) none [] final (omega arith) refl

turns-Fair : (n : ℕ) → Fair 2 (turns n)
turns-Fair zero = tt
turns-Fair (suc n) = (λ i l. ground arith, turns-Fair n)

run-launch-ends_example :
    all_finished
      (run uploading options path (launch uploading options path 2 none []) (joined (turns 10))).1
    ≡ true
unfolding num_chunks
run-launch-ends_example =
    run-launch-ends uploading options path (turns 10) 2 none [] (turns-Fair 10) (omega arith)
