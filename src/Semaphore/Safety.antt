-- ===== src/Semaphore/Safety.antt =====
-- client/semaphore.go: what holds of the semaphore and its goroutines after any schedule.
use go_psrp.Common.{
  ℕ, zero, suc, ◌+◌, ◌-◌, ◌^◌, ◌≤◌, ◌<◌, ◌≡◌, refl, ◌⊎◌, Bool, true, false, none, some, List, [],
  ◌∷◌, arith, if◌then◌else◌, length, replicate, ap, sym,
}
use go_psrp.Common.Int.{ℤ, pos, pos_part, ltb_ℤ, ◌≤ℤ◌, ◌<ℤ◌}
use go_psrp.Semaphore.{
  PoolSemaphore, Phase, outside, refused, queued, waiting, leaving, holding, Choice,
  new_pool_semaphore, over_limit, advance, step, run,
}

abbrev pub weight : Bool → ℕ
weight true = 1
weight false = 0

abbrev pub holds : Phase → ℕ
holds holding = 1
holds (leaving none) = 1
holds _ = 0

abbrev pub counts : Phase → ℕ
counts (queued q) = 1
counts waiting = 1
counts (leaving r) = 1
counts _ = 0

-- Waits for a slot, or will.
abbrev pub waits : ℤ → Phase → ℕ
waits m (queued q) = if over_limit m q then 0 else 1
waits m waiting = 1
waits m _ = 0

abbrev pub total : (Phase → ℕ) → List Phase → ℕ
total f [] = 0
total f (p ∷ ts) = f p + total f ts

-- The counters stay in step with the goroutine that moves.
record Moves (ps ps' : PoolSemaphore) (held held' counted counted' waited waited' : ℕ)
    : Type 0 where
  same_size : ps'.max_size ≡ ps.max_size
  same_limit : ps'.max_queue ≡ ps.max_queue
  tokens_move : ps'.tokens + held ≡ ps.tokens + held'
  queue_moves : ps'.queue_size + counted ≡ ps.queue_size + counted'
  within : ps.tokens ≤ ps.max_size → ps'.tokens ≤ ps.max_size
  limited : (waited' ≤ waited) ⊎ (pos ps'.queue_size ≤ℤ ps.max_queue) ⊎ (ps.max_queue <ℤ pos 0)

abbrev AdvanceMoves : PoolSemaphore → Phase → PoolSemaphore × Phase → Type 0
AdvanceMoves ps p r =
    Moves ps r.0 (holds p) (holds r.1) (counts p) (counts r.1) (waits ps.max_queue p)
      (waits ps.max_queue r.1)

advance-Moves :
    (p : Phase) (c : Choice) (ps : PoolSemaphore)
    → ps.queue_size + 1 < 2 ^ 31
    → counts p ≤ ps.queue_size
    → holds p ≤ ps.tokens
    → AdvanceMoves ps p (advance p c ps)
unfolding advance
advance-Moves outside c ps h k l = ground arith
advance-Moves refused c ps h k l = ground arith
advance-Moves (queued q) c ps h k l = ground arith
advance-Moves waiting c ps h k l = ground arith
advance-Moves (leaving none) c ps h k l = ground arith
advance-Moves (leaving (some e)) c ps h k l = ground arith
advance-Moves holding c ps h k l = ground arith

step-Moves :
    (ps : PoolSemaphore) (ts : List Phase) (i : ℕ) (c : Choice)
    → ps.queue_size + 1 < 2 ^ 31
    → total counts ts ≤ ps.queue_size
    → total holds ts ≤ ps.tokens
    → let r = step ps ts i c in
      Moves ps r.0
        (total holds ts)
        (total holds r.1)
        (total counts ts)
        (total counts r.1)
        (total (waits ps.max_queue) ts)
        (total (waits ps.max_queue) r.1)
unfolding step
step-Moves ps [] i c h k l = ground arith
step-Moves ps (p ∷ ts) zero c h k l =
    ground (arith, advance-Moves p c ps h (omega arith) (omega arith))
step-Moves ps (p ∷ ts) (suc i) c h k l =
    ground (arith, step-Moves ps ts i c h (omega arith) (omega arith))

length-step :
    (ps : PoolSemaphore) (ts : List Phase) (i : ℕ) (c : Choice)
    → length (step ps ts i c).1 ≡ length ts
unfolding step
length-step ps [] i c = refl
length-step ps (p ∷ ts) zero c = refl
length-step ps (p ∷ ts) (suc i) c = ap suc (length-step ps ts i c)

total-le-length : (ts : List Phase) → total counts ts ≤ length ts
total-le-length [] = omega arith
total-le-length (outside ∷ ts) = omega (arith, total-le-length ts)
total-le-length (refused ∷ ts) = omega (arith, total-le-length ts)
total-le-length (queued q ∷ ts) = omega (arith, total-le-length ts)
total-le-length (waiting ∷ ts) = omega (arith, total-le-length ts)
total-le-length (leaving r ∷ ts) = omega (arith, total-le-length ts)
total-le-length (holding ∷ ts) = omega (arith, total-le-length ts)

waits-le-counts : (m : ℤ) (p : Phase) → waits m p ≤ counts p
waits-le-counts m (queued q) = ground arith
waits-le-counts m _ = ground arith

total-waits-le : (m : ℤ) (ts : List Phase) → total (waits m) ts ≤ total counts ts
total-waits-le m [] = omega arith
total-waits-le m (p ∷ ts) = omega (arith, waits-le-counts m p, total-waits-le m ts)

-- The state of the semaphore, `size` and `limit` being what it was made with.
pub record IsSafe (size : ℕ) (limit : ℤ) (ps : PoolSemaphore) (ts : List Phase) : Type 0 where
  pub has_size : ps.max_size ≡ size
  pub has_limit : ps.max_queue ≡ limit
  pub tokens_held : ps.tokens ≡ total holds ts
  pub held_within : total holds ts ≤ size
  pub queue_counted : ps.queue_size ≡ total counts ts
  pub waits_limited : (pos (total (waits limit) ts) ≤ℤ limit) ⊎ (limit <ℤ pos 0)

step-IsSafe :
    (size : ℕ) (limit : ℤ) (ps : PoolSemaphore) (ts : List Phase) (i : ℕ) (c : Choice)
    → length ts < 2 ^ 31 - 1
    → IsSafe size limit ps ts
    → let r = step ps ts i c in IsSafe size limit r.0 r.1
step-IsSafe size limit ps ts i c few s = ground (
  arith,
  step-Moves ps ts i c (omega (arith, total-le-length ts, s.queue_counted))
      (omega (arith, s.queue_counted)) (omega (arith, s.tokens_held)),
  total-waits-le limit (step ps ts i c).1,
)

run-IsSafe :
    (schedule : List (ℕ × Choice)) (size : ℕ) (limit : ℤ) (ps : PoolSemaphore) (ts : List Phase)
    → length ts < 2 ^ 31 - 1
    → IsSafe size limit ps ts
    → let r = run (ps, ts) schedule in IsSafe size limit r.0 r.1
unfolding run
run-IsSafe [] size limit ps ts few s = s
run-IsSafe ((i, c) ∷ schedule) size limit ps ts few s =
    run-IsSafe schedule size limit (step ps ts i c).0 (step ps ts i c).1
      (omega (arith, length-step ps ts i c)) (step-IsSafe size limit ps ts i c few s)

total-outside : (f : Phase → ℕ) (n : ℕ) → f outside ≡ 0 → total f (replicate n outside) ≡ 0
total-outside f zero h = refl
total-outside f (suc n) h = omega (arith, total-outside f n h)

length-replicate : (n : ℕ) → length (replicate n outside) ≡ n
length-replicate zero = refl
length-replicate (suc n) = ap suc (length-replicate n)

limit_cases : (m : ℤ) → (pos 0 ≤ℤ m) ⊎ (m <ℤ pos 0)
limit_cases m = ground arith

-- The number of slots that the semaphore is made for.
abbrev pub slots : ℤ → ℕ
slots max_runspaces = pos_part (if ltb_ℤ max_runspaces (pos 1) then pos 1 else max_runspaces)

-- However fewer than 2 ^ 31 - 1 goroutines that use a new semaphore interleave: the tokens in the
-- channel are exactly the slots that are held, at most max(1, maxRunspaces) of them; the queue
-- counter is the number of goroutines between its increment and their deferred decrement; and with
-- a queue limit of 0 or more, at most that many goroutines wait for a slot.
pub run-new-IsSafe :
    (max_runspaces max_queue timeout : ℤ) (goroutines : ℕ) (schedule : List (ℕ × Choice))
    → goroutines < 2 ^ 31 - 1
    → let ps = new_pool_semaphore max_runspaces max_queue timeout in
      let r = run (ps, replicate goroutines outside) schedule in
      IsSafe (slots max_runspaces) max_queue r.0 r.1
run-new-IsSafe max_runspaces max_queue timeout n schedule few =
    run-IsSafe schedule (slots max_runspaces) max_queue
      (new_pool_semaphore max_runspaces max_queue timeout) (replicate n outside) few_threads
      (unfold new_pool_semaphore in
        record {
          has_size = refl;
          has_limit = refl;
          tokens_held = sym none_held;
          held_within = omega (arith, none_held);
          queue_counted = sym (total-outside counts n refl);
          waits_limited = rw none_wait (limit_cases max_queue);
        })
  where
    few_threads : length (replicate n outside) < 2 ^ 31 - 1
    few_threads = rw (length-replicate n) few

    none_held : total holds (replicate n outside) ≡ 0
    none_held = total-outside holds n refl

    none_wait : total (waits max_queue) (replicate n outside) ≡ 0
    none_wait = total-outside (waits max_queue) n refl
