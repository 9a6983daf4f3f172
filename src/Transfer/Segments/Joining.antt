-- ===== src/Transfer/Segments/Joining.antt =====
-- client/filetransfer.go: copyFileParallelHvSocket as a whole.
use go_psrp.Common.{
  ℕ, ◌<◌, ◌≡◌, ap, sym, ◌∙◌, inl, inr, Bool, true, List, [], ◌∷◌, ◌==◌, length, Bool-cases,
  Option-cases, Option, none, some, arith,
}
use go_psrp.Common.Text.{Text}
use go_psrp.Common.Errors.{GoError}
use go_psrp.Transfer.Scripts.{preallocate_shared_script}
use go_psrp.Transfer.Progress.{TransferProgress}
use go_psrp.Transfer.Segments.{
  Services, start_offset, worker, stream_count, first_failure, preallocated, verified,
  copy_file_parallel_hv_socket,
}
use go_psrp.Transfer.Segments.Sending.{Honest}
use go_psrp.Transfer.Segments.Tiling.{assemble, picked, Below, worker-assembles}

not_none : (x : GoError) → ¬ (some x ≡ none)
not_none x e = cc

stream_count-pos : (total asked : ℕ) → 0 < asked → 0 < stream_count total asked
unfolding stream_count
stream_count-pos total asked l = ground arith

first_failure-none :
    (order : List ℕ) (e : ℕ → Option GoError) (i : ℕ)
    → first_failure order e ≡ none
    → picked i order ≡ true
    → e i ≡ none
first_failure-none [] e i f p = cc
first_failure-none (k ∷ order) e i f p = elim (Option-cases (e k)) [
  | inl good ↦ elim (Bool-cases (i == k)) [
    | inl same ↦ let at : i ≡ k = ground (arith, same) in ap e at ∙ good
    | inr differ ↦ first_failure-none order e i (grind (arith, f, good)) (ground (arith, p, differ))
  ]
  | inr (x, bad) ↦ absurd (not_none x (sym bad ∙ grind (arith, f, bad)))
]

module _ (services : Services) (path whole : Text) (input : services.World → Text)
    (honest : Honest services whole input) where
  preallocated_succeeds :
      (count : ℕ) (order : List ℕ) (worlds : ℕ → services.World)
      (progress : Option TransferProgress) (r : services.World × Option GoError) (i : ℕ)
      → (preallocated services path (length whole) count order worlds progress r).1 ≡ none
      → picked i order ≡ true
      → (worker services path (length whole) count i progress (worlds i)).1 ≡ none
  unfolding preallocated
  preallocated_succeeds count order worlds progress (w, some x) i e p = cc
  preallocated_succeeds count order worlds progress (w, none) i e p =
      first_failure-none order
        (λ k. (worker services path (length whole) count k progress (worlds k)).1) i e p

  verified-none :
      (check : Bool) (r : services.World × Option GoError)
      → (verified services path (length whole) check r).1 ≡ none
      → r.1 ≡ none
  unfolding verified
  verified-none check (w, some x) e = cc
  verified-none check (w, none) e = λ i. none

  -- When copyFileParallelHvSocket returns no error after all its workers have returned: what their
  -- streams were given, written at the offsets of their segments in any order that leaves none out,
  -- makes a file of the same size the local file. The segments leave no gap, and none is written
  -- wrong.
  pub copy_file_parallel_hv_socket-assembles :
      (asked : ℕ) (check : Bool) (returns writes : List ℕ) (worlds : ℕ → services.World)
      (progress : Option TransferProgress) (w : services.World) (file : Text)
      → 0 < asked
      → let count = stream_count (length whole) asked in
        ((i : ℕ) → i < count → picked i returns ≡ true)
        → (copy_file_parallel_hv_socket services path
            (length whole)
            asked
            check
            returns
            worlds
            progress
            w).1
          ≡ none
        → Below count writes
        → ((i : ℕ) → i < count → picked i writes ≡ true)
        → length file ≡ length whole
        → assemble
            (start_offset (length whole) count)
            (λ i. input (worker services path (length whole) count i progress (worlds i)).0.world)
            writes
            file
          ≡ whole
  unfolding copy_file_parallel_hv_socket
  copy_file_parallel_hv_socket-assembles asked check returns writes worlds progress w file
        some_worker back e below all size =
      let n = length whole in
      let count = stream_count n asked in
      let r = services.execute (preallocate_shared_script path n) w in
      let good : (preallocated services path n count returns worlds progress r).1 ≡ none =
        verified-none check (preallocated services path n count returns worlds progress r) e in
      worker-assembles services path whole input honest count (stream_count-pos n asked some_worker)
        worlds progress writes file
        (λ i l. preallocated_succeeds count returns worlds progress r i good (back i l)) below all
        size
