-- ===== src/Semaphore/Progress.antt =====
-- client/semaphore.go: who is turned away, and who gets the slot that a goroutine gives back.
use go_psrp.Common.{
  ℕ, zero, suc, ◌<◌, ◌≡◌, refl, Bool, true, false, none, some, List, [], ◌∷◌, arith, length, sym,
  ◌∙◌, get_elem?, set, get_elem?-set_self, get_elem?-set_ne, ◌≢◌,
}
use go_psrp.Common.Int.{pos, ◌<ℤ◌}
use go_psrp.Semaphore.{
  PoolSemaphore, Phase, outside, waiting, leaving, holding, Choice, proceed, advance, step, run,
  queue_full,
}

-- Nobody is on the way out with ErrQueueFull.
abbrev not_full : Phase → Bool
not_full (leaving (some queue_full)) = false
not_full _ = true

abbrev pub NobodyFull : List Phase → Type 0
NobodyFull [] = Unit {0}
NobodyFull (p ∷ ts) = (not_full p ≡ true) × NobodyFull ts

advance-not_full :
    (p : Phase) (c : Choice) (ps : PoolSemaphore)
    → ps.max_queue <ℤ pos 0
    → not_full p ≡ true
    → (not_full (advance p c ps).1 ≡ true) × ((advance p c ps).0.max_queue ≡ ps.max_queue)
unfolding advance
advance-not_full outside c ps h n = ground arith
advance-not_full p c ps h n = ground arith

step-NobodyFull :
    (ps : PoolSemaphore) (ts : List Phase) (i : ℕ) (c : Choice)
    → ps.max_queue <ℤ pos 0
    → NobodyFull ts
    → NobodyFull (step ps ts i c).1 × ((step ps ts i c).0.max_queue ≡ ps.max_queue)
unfolding step
step-NobodyFull ps [] i c h n = (tt, refl)
step-NobodyFull ps (p ∷ ts) zero c h n = let (a, b) = advance-not_full p c ps h n.0 in ((a, n.1), b)
step-NobodyFull ps (p ∷ ts) (suc i) c h n =
    let (a, b) = step-NobodyFull ps ts i c h n.1 in ((n.0, a), b)

-- With a negative queue limit no schedule turns a goroutine away because the queue is full.
pub run-NobodyFull :
    (schedule : List (ℕ × Choice)) (ps : PoolSemaphore) (ts : List Phase)
    → ps.max_queue <ℤ pos 0
    → NobodyFull ts
    → NobodyFull (run (ps, ts) schedule).1
unfolding run
run-NobodyFull [] ps ts h n = n
run-NobodyFull ((i, c) ∷ schedule) ps ts h n =
    let (a, b) = step-NobodyFull ps ts i c h n in
    run-NobodyFull schedule (step ps ts i c).0 (step ps ts i c).1 (rw b h) a

step-set :
    (ps : PoolSemaphore) (ts : List Phase) (i : ℕ) (c : Choice) {p : Phase}
    → get_elem? ts i ≡ some p
    → step ps ts i c ≡ ((advance p c ps).0, set ts i (advance p c ps).1)
unfolding step
step-set ps [] i c e = cc
step-set ps (q ∷ ts) zero c e = ground (arith)
step-set ps (q ∷ ts) (suc i) c e = ground (arith, step-set ps ts i c e)

get_elem?-lt : (ts : List Phase) (i : ℕ) {p : Phase} → get_elem? ts i ≡ some p → i < length ts
get_elem?-lt [] i e = cc
get_elem?-lt (q ∷ ts) zero e = omega arith
get_elem?-lt (q ∷ ts) (suc i) e = omega (arith, get_elem?-lt ts i e)

-- When all slots are held, a goroutine that gives its slot back and one that waits, taking a step
-- each in that order, leave all slots held: the first is outside again, and the second has left the
-- channel with a token and no error.
pub release_serves :
    (ps : PoolSemaphore) (ts : List Phase) (i j : ℕ)
    → ps.tokens ≡ ps.max_size
    → 0 < ps.max_size
    → get_elem? ts i ≡ some holding
    → get_elem? ts j ≡ some waiting
    → let r = run (ps, ts) ((i, proceed) ∷ (j, proceed) ∷ []) in
      (r.0.tokens ≡ ps.max_size)
      × (get_elem? r.1 i ≡ some outside)
      × (get_elem? r.1 j ≡ some (leaving none))
unfolding run
release_serves ps ts i j full some_slots hi hj = rw (step-set ps ts i proceed hi) (
    rw (step-set ps' ts' j proceed hj') (
      unfold advance in
      (
        ground arith,
        get_elem?-set_ne ts' _ (λ e. apart (sym e))
            ∙ get_elem?-set_self ts i outside (get_elem?-lt ts i hi),
        ground (arith, get_elem?-set_self ts' j (leaving none) (get_elem?-lt ts' j hj')),
      )))
  where
    ps' : PoolSemaphore
    ps' = (advance holding proceed ps).0

    ts' : List Phase
    ts' = set ts i (advance holding proceed ps).1

    apart : i ≢ j
    apart e = cc

    hj' : get_elem? ts' j ≡ some waiting
    hj' = get_elem?-set_ne ts _ apart ∙ hj
