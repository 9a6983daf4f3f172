-- ===== src/Transfer/Upload/Delivery.antt =====
-- client/filetransfer.go: what copyFileParallel has written to the remote file when it succeeds.
use go_psrp.Common.{
  ℕ, zero, suc, ◌+◌, ◌/◌, ◌<◌, ◌≤◌, ◌≡◌, refl, sym, ap, ◌∙◌, ◌⊎◌, inl, inr, Bool, true, Option,
  none, some, List, [], ◌∷◌, is_some, length, arith,
}
use native.Mathlib.Nat.{div-mul-le_self, eq-zero-or-pos, suc-mul, le-div_iff_mul-le}
use go_psrp.Common.Slices.{trichotomy, get_elem?-ext}
use go_psrp.Common.Text.{Text}
use go_psrp.Common.Errors.{GoError}
use go_psrp.Transfer.Options.{FileTransferOptions, num_chunks}
use go_psrp.Transfer.Progress.{TransferProgress}
use go_psrp.Transfer.Scripts.{generate_preallocate_script}
use go_psrp.Transfer.Upload.{
  Services, Phase, starting, acquired, ready, holding, finished, Shared, jobs_from, clamp, step,
  run, launch, all_finished, returned, preallocated, copy_file_parallel,
}
use go_psrp.Transfer.Upload.Pending.{
  queued, holds, held, ended, count_ended, impossible, not_failed, queued-empty, count-starting,
  length-starting,
}
use go_psrp.Transfer.Upload.Failure.{waited, advance-failed}
use go_psrp.Transfer.Upload.Writing.{Honest, Sent, Sent-moves, Kept, advance-Kept}

module _ (services : Services) where
  open services use {
    World, execute, worker_execute, create_worker, connect_worker, close_worker, read_at,
  }

  module _ (opt : FileTransferOptions) (path whole : Text) (content : World → Text)
      (honest : Honest services opt path whole content) (positive : 0 < opt.chunk_size) where
    -- The state of all workers.
    Whole : (ℕ → ℕ) → ℕ → Shared services × List Phase → Type 0
    Whole others done s =
        (is_some s.0.failed ≡ true)
        ⊎ Sent services opt path whole content honest positive
            (λ k. queued k s.0.queue + held k s.1 + others k) s.0.world
          × ((length s.0.queue ≡ 0) ⊎ (count_ended s.1 + done ≡ 0))

    step-Whole :
        (others : ℕ → ℕ) (done : ℕ) (u : Shared services) (ps : List Phase) (i : ℕ) (c : Bool)
        → Whole others done (u, ps)
        → Whole others done (step services opt path u ps i c)
    unfolding Whole step Kept
    step-Whole others done u [] i c h = h
    step-Whole others done u (p ∷ ps) zero c (inl e) =
        inl (advance-failed services opt path c p u e)
    step-Whole others done u (p ∷ ps) zero c (inr (s, z)) =
        elim (advance-Kept services opt path whole content honest positive c p
          (λ k. held k ps + others k) (count_ended ps + done) u
          (record {
            delivers =
                Sent-moves services opt path whole content honest positive refl (λ k. omega arith)
                  s;
            emptied = ground (arith, z);
          })) [
            | inl e ↦ inl e
            | inr g ↦ inr (
              Sent-moves services opt path whole content honest positive refl (λ k. omega arith)
                  g.delivers,
              ground (arith, g.emptied),
            )
          ]
    step-Whole others done u (p ∷ ps) (suc i) c h =
        let others' : ℕ → ℕ = λ (k : ℕ). holds k p + others k in
        let before : Whole others' (ended p + done) (u, ps) = elim h [
          | inl e ↦ inl e
          | inr (s, z) ↦ inr (
            Sent-moves services opt path whole content honest positive refl (λ k. omega arith) s,
            ground (arith, z),
          )
        ] in
        elim (step-Whole others' (ended p + done) u ps i c before) [
          | inl e ↦ inl e
          | inr (s, z) ↦ inr (
            Sent-moves services opt path whole content honest positive refl (λ k. omega arith) s,
            ground (arith, z),
          )
        ]

    run-Whole :
        (schedule : List (ℕ × Bool)) (s : Shared services × List Phase)
        → Whole (λ k. 0) 0 s
        → Whole (λ k. 0) 0 (run services opt path s schedule)
    unfolding run
    run-Whole [] s h = h
    run-Whole ((i, c) ∷ schedule) s h =
        run-Whole schedule (step services opt path s.0 s.1 i c)
          (step-Whole (λ k. 0) 0 s.0 s.1 i c h)

    finished-held : (k : ℕ) (ps : List Phase) → all_finished ps ≡ true → held k ps ≡ 0
    finished-held k [] e = refl
    finished-held k (finished ∷ ps) e = omega (arith, finished-held k ps e)
    finished-held k (starting ∷ ps) e = cc
    finished-held k (acquired ∷ ps) e = cc
    finished-held k (ready ∷ ps) e = cc
    finished-held k (holding i ∷ ps) e = cc

    finished-count : (ps : List Phase) → all_finished ps ≡ true → count_ended ps ≡ length ps
    finished-count [] e = refl
    finished-count (finished ∷ ps) e = omega (arith, finished-count ps e)
    finished-count (starting ∷ ps) e = cc
    finished-count (acquired ∷ ps) e = cc
    finished-count (ready ∷ ps) e = cc
    finished-count (holding i ∷ ps) e = cc

    length-step :
        (u : Shared services) (ps : List Phase) (i : ℕ) (c : Bool)
        → length (step services opt path u ps i c).1 ≡ length ps
    unfolding step
    length-step u [] i c = refl
    length-step u (p ∷ ps) zero c = refl
    length-step u (p ∷ ps) (suc i) c = ap suc (length-step u ps i c)

    length-run :
        (schedule : List (ℕ × Bool)) (s : Shared services × List Phase)
        → length (run services opt path s schedule).1 ≡ length s.1
    unfolding run
    length-run [] s = refl
    length-run ((i, c) ∷ schedule) s =
        length-run schedule (step services opt path s.0 s.1 i c) ∙ length-step s.0 s.1 i c

    queued-jobs : (k i n : ℕ) → i ≤ k → k < i + n → 0 < queued k (jobs_from i n)
    unfolding jobs_from
    queued-jobs k i zero l m = omega arith
    queued-jobs k i (suc n) l m = elim (trichotomy k i) [
      | inl b ↦ omega arith
      | inr (inl e) ↦ ground arith
      | inr (inr b) ↦ ground (arith, queued-jobs k (i + 1) n (omega arith) (omega arith))
    ]

    chunk_in_range :
        (j total : ℕ) → j < total → j / opt.chunk_size < num_chunks total opt.chunk_size
    unfolding num_chunks
    chunk_in_range j total l =
        let below = div-mul-le_self j opt.chunk_size in
        (le-div_iff_mul-le {k = opt.chunk_size} {x = suc (j / opt.chunk_size)} positive).1
          (omega (arith, below, suc-mul (j / opt.chunk_size) opt.chunk_size, positive))

    launch-Whole :
        (progress : Option TransferProgress) (w : World)
        → length (content w) ≡ length whole
        → Whole (λ k. 0) 0 (launch services opt path (length whole) progress w)
    unfolding Whole launch
    launch-Whole progress w e = inr (
      record {
        sized = e;
        sent = λ (j : ℕ) (l : j < length whole) z. absurd (
            impossible _ _
              (queued-jobs (j / opt.chunk_size) 0 (num_chunks (length whole) opt.chunk_size)
                (omega arith) (omega (arith, chunk_in_range j (length whole) l)))
              z);
      },
      inr (
          omega (
            arith,
            count-starting (clamp (num_chunks (length whole) opt.chunk_size) opt.max_concurrency),
          )),
    )

    -- At the end nothing is pending.
    arrived :
        (s : Shared services × List Phase)
        → Whole (λ k. 0) 0 s
        → all_finished s.1 ≡ true
        → s.0.failed ≡ none
        → (length s.1 ≡ 0 → length whole ≡ 0)
        → content s.0.world ≡ whole
    unfolding Whole
    arrived s (inl f) e none_failed some_worker = absurd (not_failed s.0.failed f none_failed)
    arrived s (inr (sent, emptied)) e none_failed some_worker =
        get_elem?-ext (content s.0.world) whole sent.sized (λ (j : ℕ) (l : j < length whole).
          sent.sent j l (
            ground (
              arith,
              finished-held (j / opt.chunk_size) s.1 e,
              finished-count s.1 e,
              emptied,
              queued-empty (j / opt.chunk_size) s.0.queue,
              some_worker,
              l,
            )))

    some_worker :
        (progress : Option TransferProgress) (w : World)
        → 0 < opt.max_concurrency
        → length (launch services opt path (length whole) progress w).1 ≡ 0
        → length whole ≡ 0
    unfolding launch
    some_worker progress w workers e =
        let chunks = num_chunks (length whole) opt.chunk_size in
        let none_left : chunks ≡ 0 =
          ground (arith, e, length-starting (clamp chunks opt.max_concurrency), workers) in
        elim (eq-zero-or-pos (length whole)) [
          | inl z ↦ z
          | inr l ↦ omega (arith, chunk_in_range 0 (length whole) l, none_left)
        ]

    started :
        (schedule : List (ℕ × Bool)) (progress : Option TransferProgress)
        (r : World × Option GoError) (u : Shared services)
        → 0 < opt.max_concurrency
        → (r.1 ≡ none → length (content r.0) ≡ length whole)
        → preallocated services opt path schedule (length whole) progress r ≡ returned none u
        → content u.world ≡ whole
    unfolding preallocated
    started schedule progress (w, some x) u workers sized e = cc
    started schedule progress (w, none) u workers sized e =
        let first = launch services opt path (length whole) progress w in
        let (over, well, same) = waited services (run services opt path first schedule) u e in
        ap (λ (v : Shared services). content v.world) (sym same)
        ∙ arrived (run services opt path first schedule)
            (run-Whole schedule first (launch-Whole progress w (sized refl))) over well
            (λ z. some_worker progress w workers (sym (length-run schedule first) ∙ z))

    -- However the workers of copyFileParallel interleave, and whatever their connections and the
    -- scripts return: if it comes back without an error, the remote file is the local one. The chunk
    -- size and MaxConcurrency are positive.
    pub copy_file_parallel-delivers :
        (schedule : List (ℕ × Bool)) (progress : Option TransferProgress) (w : World)
        (u : Shared services)
        → 0 < opt.max_concurrency
        → copy_file_parallel services opt path schedule (length whole) progress w ≡ returned none u
        → content u.world ≡ whole
    unfolding copy_file_parallel
    copy_file_parallel-delivers schedule progress w u workers e =
        started schedule progress (execute (generate_preallocate_script path (length whole)) w) u
          workers (honest.allocates w) e
