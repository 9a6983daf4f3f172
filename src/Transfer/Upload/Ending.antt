-- ===== src/Transfer/Upload/Ending.antt =====
-- client/filetransfer.go: how long the workers of copyFileParallel run.
use go_psrp.Common.{
  ℕ, zero, suc, ◌+◌, ◌*◌, ◌≤◌, ◌<◌, ◌≡◌, refl, sym, ap, subst, ◌∙◌, ◌≢◌, ◌⊎◌, inl, inr, Bool, true,
  Option, List, [], ◌∷◌, ◌++◌, ◌==◌, length, replicate, arith, Bool-cases,
}
use go_psrp.Common.Text.{Text}
use go_psrp.Transfer.Options.{FileTransferOptions, num_chunks}
use go_psrp.Transfer.Progress.{TransferProgress}
use go_psrp.Transfer.Upload.{
  Services, Phase, starting, acquired, ready, holding, finished, Shared, jobs_from, clamp, advance,
  step, run, launch, all_finished,
}
use go_psrp.Transfer.Upload.Steps.{
  weight, total_weight, has_slot, count_slots, phase_at, picks, Fair, joined, left, advance-Moves,
}

unfinished :
    (ps : List Phase)
    → (all_finished ps ≡ true) ⊎ ((i : ℕ) × (i < length ps) × (0 < weight (phase_at ps i)))
unfinished [] = inl refl
unfinished (starting ∷ ps) = inr (0, omega arith, omega arith)
unfinished (acquired ∷ ps) = inr (0, omega arith, omega arith)
unfinished (ready ∷ ps) = inr (0, omega arith, omega arith)
unfinished (holding i ∷ ps) = inr (0, omega arith, omega arith)
unfinished (finished ∷ ps) = elim (unfinished ps) [
  | inl e ↦ inl e
  | inr (i, l, m) ↦ inr (suc i, omega arith, m)
]

heavy : (k n : ℕ) → ¬ (suc k + n ≡ 0)
heavy k n e = omega arith

light_finished : (ps : List Phase) → total_weight ps ≡ 0 → all_finished ps ≡ true
light_finished [] e = refl
light_finished (finished ∷ ps) e = light_finished ps (omega arith)
light_finished (starting ∷ ps) e = absurd (heavy 2 _ e)
light_finished (acquired ∷ ps) e = absurd (heavy 1 _ e)
light_finished (ready ∷ ps) e = absurd (heavy 0 _ e)
light_finished (holding i ∷ ps) e = absurd (heavy 1 _ e)

length-starting : (n : ℕ) → length (replicate n starting) ≡ n
length-starting zero = refl
length-starting (suc n) = ap suc (length-starting n)

count-starting : (n : ℕ) → count_slots (replicate n starting) ≡ 0
count-starting zero = refl
count-starting (suc n) = omega (arith, count-starting n)

weight-starting : (n : ℕ) → total_weight (replicate n starting) ≡ 3 * n
weight-starting zero = refl
weight-starting (suc n) = omega (arith, weight-starting n)

length-jobs : (i n : ℕ) → length (jobs_from i n) ≡ n
unfolding jobs_from
length-jobs i zero = refl
length-jobs i (suc n) = ap suc (length-jobs (i + 1) n)

module _ (services : Services) (opt : FileTransferOptions) (path : Text) where
  -- The slots are those of the workers that have one, with room for the others; `outer` of the
  -- slots are taken elsewhere.
  Counted : ℕ → Shared services × List Phase → Type 0
  Counted outer s =
      (s.0.slots ≡ outer + count_slots s.1) × (outer + length s.1 ≤ opt.max_concurrency)

  length-step :
      (u : Shared services) (ps : List Phase) (i : ℕ) (c : Bool)
      → length (step services opt path u ps i c).1 ≡ length ps
  unfolding step
  length-step u [] i c = refl
  length-step u (p ∷ ps) zero c = refl
  length-step u (p ∷ ps) (suc i) c = ap suc (length-step u ps i c)

  count_slots-le : (ps : List Phase) → count_slots ps ≤ length ps
  count_slots-le [] = omega arith
  count_slots-le (starting ∷ ps) = omega (arith, count_slots-le ps)
  count_slots-le (acquired ∷ ps) = omega (arith, count_slots-le ps)
  count_slots-le (ready ∷ ps) = omega (arith, count_slots-le ps)
  count_slots-le (holding i ∷ ps) = omega (arith, count_slots-le ps)
  count_slots-le (finished ∷ ps) = omega (arith, count_slots-le ps)

  has_slot-le : (p : Phase) → (has_slot p ≡ 1) ⊎ (has_slot p ≡ 0)
  has_slot-le starting = inr refl
  has_slot-le finished = inr refl
  has_slot-le acquired = inl refl
  has_slot-le ready = inl refl
  has_slot-le (holding i) = inl refl

  StepCounted : ℕ → Shared services × List Phase → ℕ → Shared services × List Phase → Type 0
  StepCounted outer s busy r =
      Counted outer r
      × (left services r.0 r.1 ≤ left services s.0 s.1)
      × (0 < busy → left services r.0 r.1 < left services s.0 s.1)

  advance-Counted :
      (outer : ℕ) (u : Shared services) (p : Phase) (ps : List Phase) (c : Bool)
      → 0 < weight p
      → Counted outer (u, p ∷ ps)
      → let r = advance services opt path c p u in
        StepCounted outer (u, p ∷ ps) (weight p) (r.0, r.1 ∷ ps)
  unfolding Counted StepCounted
  advance-Counted outer u p ps c busy (slots, fits) =
      let few = count_slots-le ps in
      let room : (has_slot p ≡ 1) ⊎ (u.slots < opt.max_concurrency) = elim (has_slot-le p) [
        | inl e ↦ inl e
        | inr e ↦ inr (omega (arith, slots, fits, few, e))
      ] in
      let m = advance-Moves services opt path c p u busy (omega (arith, slots)) room in
      omega (arith, m.decreases, m.slots_move, slots, fits)

  step-Counted :
      (outer : ℕ) (u : Shared services) (ps : List Phase) (i : ℕ) (c : Bool)
      → Counted outer (u, ps)
      → StepCounted outer (u, ps) (weight (phase_at ps i)) (step services opt path u ps i c)
  unfolding Counted StepCounted advance step
  step-Counted outer u [] i c h = (h, omega arith, λ l. omega arith)
  step-Counted outer u (finished ∷ ps) zero c h = (h, omega arith, λ l. omega arith)
  step-Counted outer u (starting ∷ ps) zero c h =
      advance-Counted outer u starting ps c (omega arith) h
  step-Counted outer u (acquired ∷ ps) zero c h =
      advance-Counted outer u acquired ps c (omega arith) h
  step-Counted outer u (ready ∷ ps) zero c h = advance-Counted outer u ready ps c (omega arith) h
  step-Counted outer u (holding k ∷ ps) zero c h =
      advance-Counted outer u (holding k) ps c (omega arith) h
  step-Counted outer u (p ∷ ps) (suc i) c h =
      let one = has_slot-le p in
      let (counted, less, busy) =
        step-Counted (outer + has_slot p) u ps i c (omega (arith, h, one)) in
      let same = length-step u ps i c in
      (omega (arith, counted, same, h), omega (arith, less), λ l. omega (arith, busy l))

  step-phase_at :
      (u : Shared services) (ps : List Phase) (i j : ℕ) (c : Bool)
      → i ≢ j
      → phase_at (step services opt path u ps j c).1 i ≡ phase_at ps i
  unfolding step
  step-phase_at u [] i j c d = refl
  step-phase_at u (p ∷ ps) zero zero c d = absurd (d refl)
  step-phase_at u (p ∷ ps) (suc i) zero c d = refl
  step-phase_at u (p ∷ ps) zero (suc j) c d = refl
  step-phase_at u (p ∷ ps) (suc i) (suc j) c d = step-phase_at u ps i j c (λ e. d (ap suc e))

  length-run :
      (schedule : List (ℕ × Bool)) (s : Shared services × List Phase)
      → length (run services opt path s schedule).1 ≡ length s.1
  unfolding run
  length-run [] s = refl
  length-run ((i, c) ∷ schedule) s =
      length-run schedule (step services opt path s.0 s.1 i c) ∙ length-step s.0 s.1 i c

  run-Counted :
      (schedule : List (ℕ × Bool)) (s : Shared services × List Phase)
      → Counted 0 s
      → let r = run services opt path s schedule in
        Counted 0 r × (left services r.0 r.1 ≤ left services s.0 s.1)
  unfolding StepCounted run
  run-Counted [] s h = (h, omega arith)
  run-Counted ((i, c) ∷ schedule) s h =
      let (counted, less, _) = step-Counted 0 s.0 s.1 i c h in
      let (after, rest) = run-Counted schedule (step services opt path s.0 s.1 i c) counted in
      (after, omega (arith, less, rest))

  -- A schedule that picks a worker that has not returned makes progress.
  run-progress :
      (schedule : List (ℕ × Bool)) (s : Shared services × List Phase) (i : ℕ)
      → Counted 0 s
      → picks i schedule ≡ true
      → 0 < weight (phase_at s.1 i)
      → let r = run services opt path s schedule in left services r.0 r.1 < left services s.0 s.1
  unfolding StepCounted run
  run-progress [] s i h e l = cc
  run-progress ((j, c) ∷ schedule) s i h e l =
      let r = step services opt path s.0 s.1 j c in
      let (counted, less, busy) = step-Counted 0 s.0 s.1 j c h in
      let (_, rest) = run-Counted schedule r counted in
      elim (Bool-cases (i == j)) [
        | inl same ↦
            let here : 0 < weight (phase_at s.1 j) = ground (arith, same, l) in
            omega (arith, busy here, rest)
        | inr other ↦
            let apart : i ≢ j = ground (arith, other) in
            let still = step-phase_at s.0 s.1 i j c apart in
            omega (
              arith,
              run-progress schedule r i counted (ground (arith, e, other))
                  (ground (arith, l, still)),
              less,
            )
      ]

  step-finished :
      (u : Shared services) (ps : List Phase) (i : ℕ) (c : Bool)
      → all_finished ps ≡ true
      → all_finished (step services opt path u ps i c).1 ≡ true
  unfolding step advance
  step-finished u [] i c e = refl
  step-finished u (finished ∷ ps) zero c e = e
  step-finished u (finished ∷ ps) (suc i) c e = step-finished u ps i c e
  step-finished u (starting ∷ ps) i c e = cc
  step-finished u (acquired ∷ ps) i c e = cc
  step-finished u (ready ∷ ps) i c e = cc
  step-finished u (holding k ∷ ps) i c e = cc

  run-finished :
      (schedule : List (ℕ × Bool)) (s : Shared services × List Phase)
      → all_finished s.1 ≡ true
      → all_finished (run services opt path s schedule).1 ≡ true
  unfolding run
  run-finished [] s e = e
  run-finished ((i, c) ∷ schedule) s e =
      run-finished schedule (step services opt path s.0 s.1 i c) (step-finished s.0 s.1 i c e)

  run-append :
      (first rest : List (ℕ × Bool)) (s : Shared services × List Phase)
      → run services opt path s (first ++ rest)
        ≡ run services opt path (run services opt path s first) rest
  unfolding run
  run-append [] rest s = refl
  run-append ((i, c) ∷ first) rest s = run-append first rest (step services opt path s.0 s.1 i c)

  Fair-end :
      (parts : List (List (ℕ × Bool))) (s : Shared services × List Phase)
      → Counted 0 s
      → Fair (length s.1) parts
      → left services s.0 s.1 ≤ length parts
      → all_finished (run services opt path s (joined parts)).1 ≡ true
  unfolding run
  Fair-end [] s h fair l = light_finished s.1 (omega arith)
  Fair-end (part ∷ parts) s h (all, fair) l =
      let r = run services opt path s part in
      let same = length-run part s in
      let (counted, less) = run-Counted part s h in
      ap (λ (x : Shared services × List Phase). all_finished x.1) (run-append part (joined parts) s)
      ∙ elim (unfinished s.1) [
        | inl e ↦ run-finished (joined parts) r (run-finished part s e)
        | inr (i, within, busy) ↦
            Fair-end parts r counted (subst (λ n. Fair n parts) (sym same) fair)
              (omega (arith, run-progress part s i h (all i within) busy, l))
      ]

  -- Whatever the calls return, the workers of copyFileParallel have all returned after a schedule
  -- that goes around them all (picks each, in any order and as often as it likes) as many times as
  -- there are steps to take: three for a worker and two for a chunk.
  pub run-launch-ends :
      (parts : List (List (ℕ × Bool))) (total : ℕ) (progress : Option TransferProgress)
      (w : services.World)
      → let chunks = num_chunks total opt.chunk_size in
        let workers = clamp chunks opt.max_concurrency in
        Fair workers parts
        → 3 * workers + 2 * chunks ≤ length parts
        → all_finished
            (run services opt path (launch services opt path total progress w) (joined parts)).1
          ≡ true
  unfolding launch Counted
  run-launch-ends parts total progress w fair enough =
      let chunks = num_chunks total opt.chunk_size in
      let workers = clamp chunks opt.max_concurrency in
      let size = length-starting workers in
      Fair-end parts (launch services opt path total progress w)
        (ground (arith, count-starting workers, size)) (subst (λ n. Fair n parts) (sym size) fair)
        (omega (arith, length-jobs 0 chunks, weight-starting workers, enough))
