-- ===== src/Semaphore.antt =====
-- client/semaphore.go: the pool semaphore. `tokens` is the number of tokens in the channel. The
-- atomic queue counter is an int32, kept as its bit pattern below 2 ^ 32. The steps of Acquire
-- between which other goroutines may run are the steps of `advance`.
pub mod Safety
pub mod Progress
mod Examples
use go_psrp.Common.{
  ℕ, zero, suc, ◌+◌, ◌-◌, ◌%◌, ◌^◌, Bool, true, false, ◌&&◌, Option, none, some, List, [], ◌∷◌,
  if◌then◌else◌, ltb, ◌==◌,
}
use go_psrp.Common.Int.{ℤ, pos, negsuc, pos_part, ltb_ℤ, leb_ℤ, signed32}

pub record PoolSemaphore : Type 0 where
  pub tokens : ℕ
  pub max_size : ℕ
  pub queue_size : ℕ
  pub max_queue : ℤ
  pub timeout : ℤ

pub data AcquireError : Type 0 where
  queue_full acquire_timeout context_done : AcquireError

unfoldable pub new_pool_semaphore : ℤ → ℤ → ℤ → PoolSemaphore
new_pool_semaphore max_runspaces max_queue timeout = record {
  tokens = 0;
  max_size = pos_part (if ltb_ℤ max_runspaces (pos 1) then pos 1 else max_runspaces);
  queue_size = 0;
  max_queue = max_queue;
  timeout = timeout;
}

-- `case ps.sem <- struct{}{}` with a `default`: whether the token went in.
pub try_send : PoolSemaphore → PoolSemaphore × Bool
try_send ps =
    if ltb ps.tokens ps.max_size then (record ps { tokens = ps.tokens + 1 }, true) else (ps, false)

-- `atomic.AddInt32(&ps.queueSize, 1)` and its result.
enter_queue : PoolSemaphore → PoolSemaphore × ℤ
enter_queue ps = let q = (ps.queue_size + 1) % 2 ^ 32 in (record ps { queue_size = q }, signed32 q)

leave_queue : PoolSemaphore → PoolSemaphore
leave_queue ps = record ps { queue_size = (ps.queue_size + 2 ^ 32 - 1) % 2 ^ 32 }

abbrev pub over_limit : ℤ → ℤ → Bool
over_limit max_queue queued = leb_ℤ (pos 0) max_queue && ltb_ℤ max_queue queued

-- In nanoseconds.
unfoldable pub wait_timeout : PoolSemaphore → ℤ
wait_timeout ps = if is_zero ps.timeout then pos 60_000_000_000 else ps.timeout
  where
    is_zero : ℤ → Bool
    is_zero (pos n) = n == 0
    is_zero (negsuc n) = false

pub release : PoolSemaphore → PoolSemaphore
release ps = record ps { tokens = ps.tokens - 1 }

unfoldable pub stats : PoolSemaphore → ℕ × ℤ × ℕ
stats ps = (ps.tokens, signed32 ps.queue_size, ps.max_size)

unfoldable pub queue_length : PoolSemaphore → ℤ
queue_length ps = signed32 ps.queue_size

-- Where a goroutine stands in Acquire and Release.
pub data Phase : Type 0 where
  outside : Phase
  -- The first `select` took its default.
  refused : Phase
  -- The queue counter was raised, to this value.
  queued : ℤ → Phase
  -- In the last `select`.
  waiting : Phase
  -- Acquire has its result, and the deferred decrement is still to run.
  leaving : Option AcquireError → Phase
  holding : Phase

-- Which case of a `select` the environment makes ready, beside the channel.
pub data Choice : Type 0 where
  proceed cancelled timed_out : Choice

sent : PoolSemaphore × Bool → Phase → Phase → PoolSemaphore × Phase
sent (ps, true) yes_phase no_phase = (ps, yes_phase)
sent (ps, false) yes_phase no_phase = (ps, no_phase)

entered_queue : PoolSemaphore × ℤ → PoolSemaphore × Phase
entered_queue (ps, q) = (ps, queued q)

-- One step of a goroutine. One that cannot move stays where it is.
pub advance : Phase → Choice → PoolSemaphore → PoolSemaphore × Phase
unfolding try_send enter_queue leave_queue release sent entered_queue
advance outside proceed ps = sent (try_send ps) holding refused
advance refused proceed ps = entered_queue (enter_queue ps)
advance (queued q) proceed ps =
    (ps, if over_limit ps.max_queue q then leaving (some queue_full) else waiting)
advance waiting proceed ps = sent (try_send ps) (leaving none) waiting
advance waiting cancelled ps = (ps, leaving (some context_done))
advance waiting timed_out ps = (ps, leaving (some acquire_timeout))
advance (leaving none) proceed ps = (leave_queue ps, holding)
advance (leaving (some e)) proceed ps = (leave_queue ps, outside)
advance holding proceed ps = (release ps, outside)
advance p c ps = (ps, p)

keep_thread : Phase → PoolSemaphore × List Phase → PoolSemaphore × List Phase
keep_thread p (ps, ts) = (ps, p ∷ ts)

moved_thread : List Phase → PoolSemaphore × Phase → PoolSemaphore × List Phase
moved_thread ts (ps, p) = (ps, p ∷ ts)

-- The goroutine with this index takes a step.
pub step : PoolSemaphore → List Phase → ℕ → Choice → PoolSemaphore × List Phase
unfolding keep_thread moved_thread
step ps [] i c = (ps, [])
step ps (p ∷ ts) zero c = moved_thread ts (advance p c ps)
step ps (p ∷ ts) (suc i) c = keep_thread p (step ps ts i c)

pub run : PoolSemaphore × List Phase → List (ℕ × Choice) → PoolSemaphore × List Phase
run (ps, ts) [] = (ps, ts)
run (ps, ts) ((i, c) ∷ schedule) = run (step ps ts i c) schedule
