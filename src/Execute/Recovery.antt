-- ===== src/Execute/Recovery.antt =====
-- client/client.go: the health of the client, the wait for a recovery, and the one retry after it
-- (executeWithReconnectHandling).
pub mod Bounded
use go_psrp.Common.{
  ℕ, zero, suc, ◌+◌, ◌*◌, Bool, true, false, ◌&&◌, ◌||◌, not, Option, none, some, if◌then◌else◌,
  ltb,
}
use go_psrp.Common.Int.{ℤ, pos, ltb_ℤ}
use go_psrp.Common.State.{Result, ok, err}
use go_psrp.Common.Text.{Text}
use go_psrp.Common.Errors.{GoError, Sentinel, error_text}
use go_psrp.Matching.{is_pool_broken_error}
use go_psrp.Retry.{second}

-- The states of the runspace pool that the code names.
pub data PoolState : Type 0 where
  before_open opening connecting opened disconnected broken closed : PoolState

pub data HealthStatus : Type 0 where
  healthy degraded unhealthy unknown : HealthStatus

-- The pool's state and count of available runspaces, and whether the backend, if there is one,
-- supports keepalives.
unfoldable pub health : Option (PoolState × ℤ) → Option Bool → HealthStatus
health none backend = unknown
health (some (opened, available)) (some false) = healthy
health (some (opened, available)) _ = if ltb_ℤ (pos 0) available then healthy else degraded
health (some (before_open, available)) backend = unknown
health (some (opening, available)) backend = unknown
health (some (connecting, available)) backend = unknown
health (some (disconnected, available)) backend = unhealthy
health (some (broken, available)) backend = unhealthy
health (some (closed, available)) backend = unhealthy

unfoldable pub is_recovered : HealthStatus → Bool
is_recovered healthy = true
is_recovered degraded = true
is_recovered _ = false

-- What is called: the clock in nanoseconds, a wait for the ticker or ctx.Done (true), the health,
-- one execution, and the texts of errors.
pub record Session : Type 1 where
  pub World : Type 0
  pub Output : Type 0
  pub text : Sentinel → Text
  pub now : World → ℕ
  pub tick : World → World × Bool
  pub health_of : World → HealthStatus
  pub execute_once : World → World × Result GoError Output

module _ (session : Session) where
  open session use {World, Output, text, now, tick, health_of, execute_once}

  -- After a wait: whether the connection is back, unless the loop goes on.
  unfoldable pub ticked : ℕ → (World → World × Option Bool) → World × Bool → World × Option Bool
  unfolding is_recovered
  ticked deadline again (w, true) = (w, some false)
  ticked deadline again (w, false) =
      if is_recovered (health_of w)
      then (w, some true)
      else if ltb deadline (now w)
      then (w, some false)
      else again w

  -- The loop on fuel: none when that is used up.
  unfoldable pub polling : ℕ → ℕ → World → World × Option Bool
  unfolding ticked
  polling zero deadline w = (w, none)
  polling (suc fuel) deadline w = ticked deadline (polling fuel deadline) (tick w)

  unfoldable pub wait_for_recovery : ℕ → ℕ → World → World × Option Bool
  unfolding polling
  wait_for_recovery fuel timeout w = polling fuel (now w + timeout) w

  unfoldable pub recovered : GoError → World × Option Bool → World × Option (Result GoError Output)
  recovered e (w, none) = (w, none)
  recovered e (w, some false) = (w, some (err e))
  recovered e (w, some true) = let (w', r) = execute_once w in (w', some r)

  unfoldable pub settled :
      Bool → ℕ → World × Result GoError Output → World × Option (Result GoError Output)
  unfolding recovered
  settled reconnects fuel (w, ok out) = (w, some (ok out))
  settled reconnects fuel (w, err e) =
      if is_pool_broken_error (some (error_text text e)) && reconnects
      then recovered e (wait_for_recovery fuel (30 * second) w)
      else (w, some (err e))

  unfoldable pub execute_with_reconnect_handling :
      Bool → ℕ → World → World × Option (Result GoError Output)
  unfolding settled
  execute_with_reconnect_handling reconnects fuel w = settled reconnects fuel (execute_once w)
