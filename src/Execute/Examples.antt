-- ===== src/Execute/Examples.antt =====
-- client/client.go: Execute against a script of outcomes.
use go_psrp.Common.{
  ℕ, zero, suc, ◌+◌, ◌*◌, ◌≤◌, ◌<◌, ◌≡◌, refl, true, false, none, some, is_some, ltb, List, [], ◌∷◌,
  arith, Option, ap, ◌||◌,
}
use go_psrp.Common.Int.{ℤ, pos, pos_part, neg_part, sub_ℕ, ltb_ℤ, leb_ℤ}
use go_psrp.Common.State.{Result, ok, err}
use go_psrp.Common.Text.{Text, codes}
use go_psrp.Common.Errors.{GoError, Sentinel, sentinel, eof, runspace_broken}
use go_psrp.Retry.{Floats, RetryPolicy, is_retryable_error, calculate_retry_backoff}
use go_psrp.Matching.{is_pool_broken_error}
use go_psrp.Breaker.{CircuitBreaker, state_open, new_circuit_breaker}
use go_psrp.Execute.{Env, Config, operation, execute, max_attempts}
use go_psrp.Execute.Attempts.{Counts, blocked, allowed, answers, execute-count, execute_answers}
use go_psrp.Execute.Recovery.{
  Session, healthy, unhealthy, execute_with_reconnect_handling, wait_for_recovery,
}
use go_psrp.Execute.Recovery.Bounded.{
  Executions, TicksFrom, then_tick, after_ticks, handling_runs_twice_at_most,
}

abbrev times : ℤ → ℤ → ℤ
times a b =
    sub_ℕ (pos_part a * pos_part b + neg_part a * neg_part b)
      (pos_part a * neg_part b + neg_part a * pos_part b)

abbrev plus : ℤ → ℤ → ℤ
plus a b = sub_ℕ (pos_part a + pos_part b) (neg_part a + neg_part b)

abbrev power : ℤ → ℕ → ℤ
power a zero = pos 1
power a (suc n) = times a (power a n)

-- Floats that are whole numbers.
abbrev whole : Floats
whole = record {
  Float = ℤ;
  of_int = λ n. n;
  add = plus;
  sub = λ a b. sub_ℕ (pos_part a + neg_part b) (neg_part a + pos_part b);
  mul = times;
  pow = λ a n. power a (pos_part n);
  lt = ltb_ℤ;
  le = leb_ℤ;
  trunc = λ x. x;
}

-- The outcomes to come, the clock, and the number of attempts made.
record Script : Type 0 where
  outcomes : List (Result GoError ℕ)
  clock : ℕ
  made : ℕ

abbrev drawn : List (Result GoError ℕ) → Script → Script × Result GoError ℕ
drawn [] s = (record s { made = suc s.made }, err (sentinel eof))
drawn (o ∷ os) s = (record s { made = suc s.made; outcomes = os }, o)

abbrev next : Script → Script × Result GoError ℕ
next s = drawn s.outcomes s

drawn_counts : (os : List (Result GoError ℕ)) (s : Script) → (drawn os s).0.made ≡ suc s.made
drawn_counts [] s = refl
drawn_counts (o ∷ os) s = refl

next_counts : (s : Script) → (next s).0.made ≡ suc s.made
next_counts s = drawn_counts s.outcomes s

abbrev text_of : Sentinel → Text
text_of eof = codes "EOF"
text_of runspace_broken = codes "runspace pool broken"
text_of _ = codes "error"

abbrev scripted : Env
scripted = record {
  floats = whole;
  World = Script;
  Output = ℕ;
  text = text_of;
  crypto_rand = λ s. (s, pos 0);
  now = λ s. s.clock;
  sleep = λ d s. (record s { clock = s.clock + pos_part d }, none);
  attempt = next;
}

abbrev policy : ℤ → RetryPolicy whole {World = Script} (λ s. (s, pos 0))
policy n = record {
  enabled = true;
  max_attempts = n;
  initial_delay = pos 100;
  max_delay = pos 5_000;
  multiplier = pos 3;
  jitter = pos 0;
  max_duration = pos 0;
}

abbrev config : ℤ → Config scripted
config n = record {
  retry = some (policy n);
  reconnect = record {
    enabled = false;
    max_attempts = pos 0;
    initial_delay = pos 0;
    max_delay = pos 0;
    jitter = pos 0;
  };
}

abbrev flaky : Script
flaky = record { outcomes = err (sentinel eof) ∷ ok 7 ∷ []; clock = 0; made = 0 }

-- An end of file is retried, after 100 ns.
retries :
    operation scripted (config (pos 3)) flaky
    ≡ (record { outcomes = []; clock = 100; made = 2 }, some 7, none)
unfolding operation max_attempts is_retryable_error calculate_retry_backoff
retries = refl

flaky-Counts : Counts scripted (λ s. s.made)
flaky-Counts = record { one = next_counts; in_sleep = λ d s. refl; in_rand = λ s. refl }

-- A breaker that is open until 1,000 ns.
abbrev broken : CircuitBreaker
broken = record (new_circuit_breaker none) {
  enabled = true;
  state = state_open;
  timeout = pos 1_000;
}

execute-count_example :
    (execute scripted (config (pos 3)) (some broken) (record flaky { clock = 2_000 }) 3_000).1.made
    ≤ 0 + 3
unfolding new_circuit_breaker
execute-count_example =
    execute-count scripted flaky-Counts (config (pos 3)) (some broken)
      (record flaky { clock = 2_000 }) 3_000

nothing_returned : execute scripted (config (pos 0)) none flaky 5 ≡ (none, flaky, none, none)
unfolding execute max_attempts
nothing_returned = refl

execute_answers_example :
    answers scripted
      (execute scripted (config (pos 0)) (some broken) flaky 5).2
      (execute scripted (config (pos 0)) (some broken) flaky 5).3
    ≡ (blocked (some broken) 0 || ltb 0 (allowed scripted (config (pos 0))))
execute_answers_example = execute_answers scripted (config (pos 0)) (some broken) flaky 5

-- A pool that breaks, and is back after two seconds.
abbrev session : Session
session = record {
  World = Script;
  Output = ℕ;
  text = text_of;
  now = λ s. s.clock;
  tick = λ s. (record s { clock = s.clock + 500_000_000 }, false);
  health_of = λ s. elim (ltb s.clock 2_000_000_000) [ true ↦ unhealthy | false ↦ healthy ];
  execute_once = next;
}

abbrev breaking : Script
breaking = record { outcomes = err (sentinel runspace_broken) ∷ ok 7 ∷ []; clock = 0; made = 0 }

recovers :
    execute_with_reconnect_handling session true 61 breaking
    ≡ (record { outcomes = []; clock = 2_000_000_000; made = 2 }, some (ok 7))
unfolding execute_with_reconnect_handling is_pool_broken_error wait_for_recovery
recovers = refl

session-Executions : Executions session (λ s. s.made)
session-Executions = record { one = next_counts; in_tick = λ s. refl }

abbrev half_second : ℕ
half_second = 500_000_000

abbrev clock_of : Option Script → ℕ
clock_of none = 0
clock_of (some s) = s.clock

one_tick :
    (o : Option Script) (v : Script) (m : ℕ)
    → ((u : Script) → o ≡ some u → m ≤ u.clock)
    → then_tick session o ≡ some v
    → m + half_second ≤ v.clock
one_tick none v m f e = cc
one_tick (some u) v m f e = omega (arith, f u refl, ap clock_of e)

session-TicksFrom : (s : Script) → TicksFrom session s half_second
session-TicksFrom s zero v e = omega (arith, ap clock_of e)
session-TicksFrom s (suc n) v e =
    let next =
      one_tick (after_ticks session s n) v (s.clock + n * half_second)
        (λ u. session-TicksFrom s n u) e in
    omega (arith, next)

handling_runs_twice_at_most_example :
    (is_some (execute_with_reconnect_handling session true 61 breaking).1 ≡ true)
    × ((0 < (execute_with_reconnect_handling session true 61 breaking).0.made)
        × ((execute_with_reconnect_handling session true 61 breaking).0.made ≤ 2))
handling_runs_twice_at_most_example =
    handling_runs_twice_at_most session half_second (λ s. s.made) true 61 breaking
      (session-TicksFrom _) session-Executions (omega arith)
