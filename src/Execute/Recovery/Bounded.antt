-- ===== src/Execute/Recovery/Bounded.antt =====
-- client/client.go: the wait for a recovery ends, and a command is run at most twice.
use go_psrp.Common.{
  ℕ, zero, suc, ◌+◌, ◌*◌, ◌≤◌, ◌<◌, ◌≡◌, refl, ◌∙◌, ap, subst, Bool, true, false, Option, none,
  some, is_some, arith,
}
use go_psrp.Common.State.{Result, ok, err}
use go_psrp.Common.Errors.{GoError}
use go_psrp.Retry.{second}
use go_psrp.Execute.Recovery.{
  Session, ticked, polling, wait_for_recovery, recovered, settled, execute_with_reconnect_handling,
}

rounds :
    (fuel n deadline start period : ℕ)
    → deadline < start + (n + suc fuel) * period
    → deadline < start + (suc n + fuel) * period
rounds fuel n deadline start period l = subst (λ k. deadline < start + k * period) (omega arith) l

late :
    (n deadline start now period : ℕ)
    → now ≤ deadline
    → start + n * period ≤ now
    → ¬ (deadline < start + (n + 0) * period)
late n deadline start now period m t l =
    let same : (n + 0) * period ≡ n * period = ap (λ k. k * period) (omega arith) in
    omega (arith, m, t, l, same)

module _ (session : Session) where
  open session use {World, Output, text, now, tick, health_of, execute_once}

  -- The world after a tick of the ticker, unless the context was done first.
  abbrev pub continued : World × Bool → Option World
  continued (w, true) = none
  continued (w, false) = some w

  abbrev pub then_tick : Option World → Option World
  then_tick none = none
  then_tick (some w) = continued (tick w)

  -- The world after `n` ticks from a start, if the context is not done before them all.
  abbrev pub after_ticks : World → ℕ → Option World
  after_ticks start zero = some start
  after_ticks start (suc n) = then_tick (after_ticks start n)

  -- A ticker that is started in `start`: when its n-th tick is received, n periods have passed since
  -- then, or more. A tick may be received late, and the next one soon after it. The context may be
  -- done at any time, after which nothing is said.
  abbrev pub TicksFrom : World → ℕ → Type 0
  TicksFrom start period =
      (n : ℕ) (v : World) → after_ticks start n ≡ some v → now start + n * period ≤ now v

  module _ (period : ℕ) (start : World) (ticks : TicksFrom start period) where
    ticked_returns :
        (fuel n deadline : ℕ) (p : World × Bool)
        → after_ticks start (suc n) ≡ continued p
        → deadline < now start + (suc n + fuel) * period
        → ((v : World)
            → after_ticks start (suc n) ≡ some v
            → now v ≤ deadline
            → is_some (polling session fuel deadline v).1 ≡ true)
        → is_some (ticked session deadline (polling session fuel deadline) p).1 ≡ true
    unfolding ticked
    ticked_returns fuel n deadline (w, true) e l f = refl
    ticked_returns fuel n deadline (w, false) e l f = ground (arith, f w e)

    polling_returns :
        (fuel n deadline : ℕ) (w : World)
        → after_ticks start n ≡ some w
        → now w ≤ deadline
        → deadline < now start + (n + fuel) * period
        → is_some (polling session fuel deadline w).1 ≡ true
    unfolding polling
    polling_returns zero n deadline w e m l =
        absurd (late n deadline (now start) (now w) period m (ticks n w e) l)
    polling_returns (suc fuel) n deadline w e m l =
        ticked_returns fuel n deadline (tick w) (ap then_tick e)
          (rounds fuel n deadline (now start) period l)
          (λ v e' m'.
            polling_returns fuel (suc n) deadline v e' m'
              (rounds fuel n deadline (now start) period l))

    -- The wait for a recovery ends within a round for each period of the timeout, and one more.
    wait_returns :
        (fuel timeout : ℕ)
        → timeout < fuel * period
        → is_some (wait_for_recovery session fuel timeout start).1 ≡ true
    unfolding wait_for_recovery
    wait_returns fuel timeout l =
        polling_returns fuel 0 (now start + timeout) start refl (omega arith) (omega arith)

  recovered_returns :
      (e : GoError) (p : World × Option Bool)
      → is_some p.1 ≡ true
      → is_some (recovered session e p).1 ≡ true
  unfolding recovered
  recovered_returns e (w, none) s = s
  recovered_returns e (w, some true) s = refl
  recovered_returns e (w, some false) s = refl

  settled_returns :
      (reconnects : Bool) (fuel period : ℕ) (p : World × Result GoError Output)
      → TicksFrom p.0 period
      → 30 * second < fuel * period
      → is_some (settled session reconnects fuel p).1 ≡ true
  unfolding settled
  settled_returns reconnects fuel period (w, ok out) ticks l = refl
  settled_returns reconnects fuel period (w, err e) ticks l = ground (
    arith,
    recovered_returns e (wait_for_recovery session fuel (30 * second) w)
        (wait_returns period w ticks fuel (30 * second) l),
  )

  -- A count of the executions made, which only execute_once moves.
  pub record Executions (count : World → ℕ) : Type 0 where
    pub one : (w : World) → count (execute_once w).0 ≡ suc (count w)
    pub in_tick : (w : World) → count (tick w).0 ≡ count w

  module _ {count : World → ℕ} (counts : Executions count) where
    ticked-count :
        (deadline : ℕ) (again : World → World × Option Bool) (p : World × Bool)
        → ((w : World) → count (again w).0 ≡ count w)
        → count (ticked session deadline again p).0 ≡ count p.0
    unfolding ticked
    ticked-count deadline again (w, true) f = refl
    ticked-count deadline again (w, false) f = ground (arith, f w)

    polling-count :
        (fuel deadline : ℕ) (w : World) → count (polling session fuel deadline w).0 ≡ count w
    unfolding polling
    polling-count zero deadline w = refl
    polling-count (suc fuel) deadline w =
        ticked-count deadline (polling session fuel deadline) (tick w) (polling-count fuel deadline)
        ∙ counts.in_tick w

    recovered-count :
        (e : GoError) (p : World × Option Bool)
        → (count p.0 ≤ count (recovered session e p).0)
          × (count (recovered session e p).0 ≤ suc (count p.0))
    unfolding recovered
    recovered-count e (w, none) = omega arith
    recovered-count e (w, some true) = omega (arith, counts.one w)
    recovered-count e (w, some false) = omega arith

    settled-count :
        (reconnects : Bool) (fuel : ℕ) (p : World × Result GoError Output)
        → (count p.0 ≤ count (settled session reconnects fuel p).0)
          × (count (settled session reconnects fuel p).0 ≤ suc (count p.0))
    unfolding settled wait_for_recovery
    settled-count reconnects fuel (w, ok out) = omega arith
    settled-count reconnects fuel (w, err e) =
        let deadline = now w + 30 * second in
        ground (
          arith,
          recovered-count e (polling session fuel deadline w),
          polling-count fuel deadline w,
        )

  -- An execution with reconnection handling, with fuel for more rounds than periods of the ticker fit
  -- into 30 seconds, returns a result or an error, and it has run the command once or twice. The
  -- ticker is started after the first run; its n-th tick comes n periods later or more, and the
  -- context may be done at any time, which ends the wait.
  pub handling_runs_twice_at_most :
      (period : ℕ) (count : World → ℕ) (reconnects : Bool) (fuel : ℕ) (w : World)
      → TicksFrom (execute_once w).0 period
      → Executions count
      → 30 * second < fuel * period
      → (is_some (execute_with_reconnect_handling session reconnects fuel w).1 ≡ true)
        × ((count w < count (execute_with_reconnect_handling session reconnects fuel w).0)
            × (count (execute_with_reconnect_handling session reconnects fuel w).0 ≤ count w + 2))
  unfolding execute_with_reconnect_handling
  handling_runs_twice_at_most period count reconnects fuel w ticks counts l = (
    settled_returns reconnects fuel period (execute_once w) ticks l,
    ground (arith, settled-count counts reconnects fuel (execute_once w), counts.one w),
  )
