-- ===== src/Execute/Attempts.antt =====
-- client/client.go: how many attempts Execute makes, and what it returns.
use go_psrp.Common.{
  ◌∙◌, ℕ, zero, suc, ◌+◌, ◌≤◌, ◌<◌, ◌≡◌, refl, sym, subst, Bool, true, false, ◌||◌, ◌&&◌,
  if◌then◌else◌, ltb, Bool-cases, inl, inr, not, Option, none, some, is_some, arith,
}
use go_psrp.Common.Int.{ℤ, ltb_ℤ, pos, negsuc, pos_part, ◌≤ℤ◌}
use go_psrp.Common.State.{Result, ok, err}
use go_psrp.Common.Errors.{GoError}
use go_psrp.Breaker.{CircuitBreaker}
use go_psrp.Breaker.Calls.{blocks, execute_fails_fast}
use go_psrp.Retry.{calculate_retry_backoff, base_backoff, RetryPolicy, apply_jitter, jittered}
use go_psrp.Execute.{
  active_policy, Env, Config, Outcome, loop, attempted, backed_off, slept, operation, max_attempts,
  delay_before_retry, guarded, execute,
}

-- Whether a breaker, if there is one, lets no call through.
abbrev pub blocked : Option CircuitBreaker → ℕ → Bool
blocked none now = false
blocked (some cb) now = blocks cb now

module _ (env : Env) where
  open env use {floats, World, Output, text, crypto_rand, now, sleep, attempt}
  open floats use {Float}

  -- The number of attempts that the configuration allows.
  abbrev pub allowed : Config env → ℕ
  allowed c =
      let without =
        if c.reconnect.enabled && ltb_ℤ (pos 0) c.reconnect.max_attempts
        then pos_part c.reconnect.max_attempts
        else 1 in
      elim c.retry [
        | none ↦ without
        | some p ↦ if p.enabled then pos_part p.max_attempts else without
      ]

  allowed_lem : (c : Config env) → pos_part (max_attempts env c) ≡ allowed c
  unfolding max_attempts active_policy
  allowed_lem c = ground arith

  -- A count of the attempts made, which only an attempt moves.
  pub record Counts (count : World → ℕ) : Type 0 where
    pub one : (w : World) → count (attempt w).0 ≡ suc (count w)
    pub in_sleep : (d : ℤ) (w : World) → count (sleep d w).0 ≡ count w
    pub in_rand : (w : World) → count (crypto_rand w).0 ≡ count w

  module _ {count : World → ℕ} (counts : Counts count) where
    jittered-count :
        (d : ℤ) (f : Float) (p : World × Float)
        → count (jittered floats crypto_rand d f p).0 ≡ count p.0
    unfolding jittered
    jittered-count d f (w, r) = refl

    calculate-count :
        (n : ℕ) (p : Option (RetryPolicy floats crypto_rand)) (w : World)
        → count (calculate_retry_backoff floats crypto_rand n p w).0 ≡ count w
    unfolding calculate_retry_backoff apply_jitter
    calculate-count n none w = refl
    calculate-count n (some p) w = ground (
      arith,
      jittered-count (base_backoff floats crypto_rand n p) p.jitter (crypto_rand w),
      counts.in_rand w,
    )

    delay-count :
        (c : Config env) (n : ℕ) (w : World) → count (delay_before_retry env c n w).0 ≡ count w
    unfolding delay_before_retry
    delay-count c n w = grind (arith, calculate-count)

    module _ (again : ℕ → Option GoError → World → Outcome env) (left : ℕ)
        (bound : (n : ℕ) (e : Option GoError) (w : World)
          → count (again n e w).0 ≤ count w + left) where
      slept-count :
          (n : ℕ) (e : GoError) (p : World × Option GoError)
          → count (slept env again n e p).0 ≤ count p.0 + left
      unfolding slept
      slept-count n e (w, none) = bound (suc n) (some e) w
      slept-count n e (w, some x) = omega arith

      backed_off-count :
          (n : ℕ) (e : GoError) (p : World × ℤ)
          → count (backed_off env again n e p).0 ≤ count p.0 + left
      unfolding backed_off
      backed_off-count n e (w, d) = ground (arith, slept-count n e (sleep d w), counts.in_sleep d w)

      attempted-count :
          (c : Config env) (n : ℕ) (p : World × Result GoError Output)
          → count (attempted env c again n p).0 ≤ count p.0 + left
      unfolding attempted
      attempted-count c n (w, ok out) = omega arith
      attempted-count c n (w, err e) =
          ground (arith, backed_off-count n e (delay_before_retry env c n w), delay-count c n w)

    loop-count :
        (c : Config env) (start left n : ℕ) (last : Option GoError) (w : World)
        → count (loop env c start left n last w).0 ≤ count w + left
    unfolding loop
    loop-count c start zero n last w = omega arith
    loop-count c start (suc left) n last w =
        let next =
          attempted-count (loop env c start left) left (loop-count c start left) c n (attempt w) in
        ground (arith, next, counts.one w)

    operation-count :
        (c : Config env) (w : World)
        → count (operation env c w).0 ≤ count w + pos_part (max_attempts env c)
    unfolding operation
    operation-count c w = loop-count c (now w) (pos_part (max_attempts env c)) 1 none w

    guarded-count :
        (c : Config env) (w : World) (out : Option Output)
        → count (guarded env c (w, out)).0.0 ≤ count w + allowed c
    unfolding guarded
    guarded-count c w out = omega (arith, operation-count c w, allowed_lem c)

    -- An Execute, with a circuit breaker in any state or none, makes no attempt if the breaker blocks
    -- it. Otherwise it makes at most the MaxAttempts of an enabled retry policy; without one, at most
    -- the MaxAttempts of the reconnect policy if that is enabled and has a positive one, and at most
    -- one if not. A retry policy's MaxAttempts that is not positive allows no attempt.
    -- Whatever the attempts return and however long the waits take.
    pub execute-count :
        (c : Config env) (b : Option CircuitBreaker) (w : World) (later : ℕ)
        → count (execute env c b w later).1 ≤ count w + (if blocked b (now w) then 0 else allowed c)
    unfolding execute
    execute-count c none w later = guarded-count c w none
    execute-count c (some cb) w later =
        subst (λ r. count r.1.0 ≤ count w + (if blocks cb (now w) then 0 else allowed c))
          (sym (execute_fails_fast cb (guarded env c) (w, none) (now w) later))
          (ground (arith, guarded-count c w none))

  -- Exactly one of a result and an error.
  unfoldable pub Decided : Outcome env → Type 0
  Decided (w, out, e) = is_some out ≡ not (is_some e)

  module _ (again : ℕ → Option GoError → World → Outcome env)
      (decided : (n : ℕ) (e : GoError) (w : World) → Decided (again n (some e) w)) where
    slept-Decided :
        (n : ℕ) (e : GoError) (q : World × Option GoError) → Decided (slept env again n e q)
    unfolding slept Decided
    slept-Decided n e (w, none) = decided (suc n) e w
    slept-Decided n e (w, some x) = refl

    backed_off-Decided :
        (n : ℕ) (e : GoError) (p : World × ℤ) → Decided (backed_off env again n e p)
    unfolding backed_off
    backed_off-Decided n e (w, d) = slept-Decided n e (sleep d w)

    attempted-Decided :
        (c : Config env) (n : ℕ) (p : World × Result GoError Output)
        → Decided (attempted env c again n p)
    unfolding attempted Decided
    attempted-Decided c n (w, ok out) = refl
    attempted-Decided c n (w, err e) =
        ground (arith, backed_off-Decided n e (delay_before_retry env c n w))

  loop-Decided :
      (c : Config env) (start left n : ℕ) (last : GoError) (w : World)
      → Decided (loop env c start left n (some last) w)
  unfolding loop Decided
  loop-Decided c start zero n last w = refl
  loop-Decided c start (suc left) n last w =
      ground (
        arith,
        attempted-Decided (loop env c start left) (loop-Decided c start left) c n (attempt w),
      )

  non_positive : (n : ℤ) → n ≤ℤ pos 0 → pos_part n ≡ 0
  non_positive (pos n) l = omega arith
  non_positive (negsuc n) l = refl

  first-Decided :
      (c : Config env) (start rounds : ℕ) (w : World)
      → 0 < rounds
      → Decided (loop env c start rounds 1 none w)
  unfolding loop Decided
  first-Decided c start zero w l = ground arith
  first-Decided c start (suc k) w l =
      ground
        (arith, attempted-Decided (loop env c start k) (loop-Decided c start k) c 1 (attempt w))

  pub operation-Decided :
      (c : Config env) (w : World) → 0 < pos_part (max_attempts env c) → Decided (operation env c w)
  unfolding operation
  operation-Decided c w p = first-Decided c (now w) (pos_part (max_attempts env c)) w p

  no_rounds :
      (c : Config env) (start rounds : ℕ) (w : World)
      → rounds ≡ 0
      → loop env c start rounds 1 none w ≡ (w, none, none)
  unfolding loop
  no_rounds c start zero w e = refl
  no_rounds c start (suc k) w e = ground arith

  -- Whether there is a result or an error.
  abbrev pub answers : {E : Type 0} → Option Output → Option E → Bool
  answers out e = is_some out || is_some e

  some_answer : (r : Outcome env) → Decided r → answers r.1 r.2 ≡ true
  unfolding Decided
  some_answer (w, none, none) d = ground (arith, d)
  some_answer (w, none, some e) d = refl
  some_answer (w, some out, e) d = refl

  operation_answers :
      (c : Config env) (w : World)
      → answers (operation env c w).1 (operation env c w).2 ≡ ltb 0 (pos_part (max_attempts env c))
  unfolding operation
  operation_answers c w = elim (Bool-cases (ltb 0 (pos_part (max_attempts env c)))) [
    | inl some_attempt ↦
        some_answer (operation env c w) (operation-Decided c w (ground (arith, some_attempt)))
        ∙ sym some_attempt
    | inr no_attempt ↦
        let idle =
          no_rounds c (now w) (pos_part (max_attempts env c)) w (ground (arith, no_attempt)) in
        rw (idle, no_attempt) refl
  ]

  guarded_answers :
      (c : Config env) (w : World) (out : Option Output)
      → answers (guarded env c (w, out)).0.1 (guarded env c (w, out)).1 ≡ ltb 0 (allowed c)
  unfolding guarded
  guarded_answers c w out = ground (arith, operation_answers c w, allowed_lem c)

  -- An Execute, with a circuit breaker in any state or none, returns a result or an error exactly
  -- when the breaker blocks it or an attempt is allowed: with an enabled retry policy whose
  -- MaxAttempts is not positive, and a breaker that does not block, it returns neither, and in no other
  -- case.
  pub execute_answers :
      (c : Config env) (b : Option CircuitBreaker) (w : World) (later : ℕ)
      → answers (execute env c b w later).2 (execute env c b w later).3
        ≡ (blocked b (now w) || ltb 0 (allowed c))
  unfolding execute
  execute_answers c none w later = guarded_answers c w none
  execute_answers c (some cb) w later =
      subst (λ r. answers r.1.1 r.2 ≡ (blocks cb (now w) || ltb 0 (allowed c)))
        (sym (execute_fails_fast cb (guarded env c) (w, none) (now w) later))
        (ground (arith, guarded_answers c w none))
