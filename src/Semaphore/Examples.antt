-- ===== src/Semaphore/Examples.antt =====
-- The semaphore's theorems at concrete schedules, and tests of the definitions.
use go_psrp.Common.{
  ℕ, ◌<◌, ◌≡◌, refl, none, some, List, [], ◌∷◌, arith, get_elem?, replicate, ◌^◌, ◌-◌,
}
use go_psrp.Common.Int.{pos, negsuc}
use go_psrp.Semaphore.{
  PoolSemaphore, outside, waiting, leaving, holding, Choice, proceed, queue_full,
  new_pool_semaphore, advance, step, run, stats, wait_timeout,
}
use go_psrp.Semaphore.Safety.{IsSafe, slots, run-new-IsSafe}
use go_psrp.Semaphore.Progress.{NobodyFull, run-NobodyFull, release_serves}

-- One slot, room for one waiter, and three goroutines: the last is turned away.
abbrev schedule : List (ℕ × Choice)
schedule =
    (0, proceed)
    ∷ (1, proceed)
    ∷ (1, proceed)
    ∷ (1, proceed)
    ∷ (2, proceed)
    ∷ (2, proceed)
    ∷ (2, proceed)
    ∷ []

schedule_phases :
    (run (new_pool_semaphore (pos 1) (pos 1) (pos 0), replicate 3 outside) schedule).1
    ≡ holding ∷ waiting ∷ leaving (some queue_full) ∷ []
unfolding run step advance new_pool_semaphore
schedule_phases = refl

schedule-stats :
    stats (run (new_pool_semaphore (pos 1) (pos 1) (pos 0), replicate 3 outside) schedule).0
    ≡ (1, pos 2, 1)
unfolding run step advance new_pool_semaphore stats
schedule-stats = refl

default_timeout : wait_timeout (new_pool_semaphore (pos 1) (pos 1) (pos 0)) ≡ pos 60_000_000_000
unfolding wait_timeout new_pool_semaphore
default_timeout = refl

few : 3 < 2 ^ 31 - 1
few = omega arith

run-new-IsSafe_example :
    let r = run (new_pool_semaphore (pos 1) (pos 1) (pos 0), replicate 3 outside) schedule in
    IsSafe (slots (pos 1)) (pos 1) r.0 r.1
run-new-IsSafe_example = run-new-IsSafe (pos 1) (pos 1) (pos 0) 3 schedule few

abbrev busy : PoolSemaphore
busy = record { tokens = 1; max_size = 1; queue_size = 1; max_queue = negsuc 0; timeout = pos 0 }

run-NobodyFull_example : NobodyFull (run (busy, holding ∷ waiting ∷ outside ∷ []) schedule).1
run-NobodyFull_example =
    run-NobodyFull schedule busy (holding ∷ waiting ∷ outside ∷ []) (omega arith)
      (refl, (refl, (refl, tt)))

release_serves_example :
    let r = run (busy, holding ∷ waiting ∷ []) ((0, proceed) ∷ (1, proceed) ∷ []) in
    (r.0.tokens ≡ 1) × (get_elem? r.1 0 ≡ some outside) × (get_elem? r.1 1 ≡ some (leaving none))
release_serves_example =
    release_serves busy (holding ∷ waiting ∷ []) 0 1 refl (omega arith) refl refl
