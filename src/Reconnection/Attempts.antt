-- ===== src/Reconnection/Attempts.antt =====
-- client/reconnect.go: the attempts come to an end, and a server that comes back is reached.
use go_psrp.Common.{
  ℕ, zero, suc, ◌+◌, ◌≤◌, ◌<◌, ◌≡◌, ◌⊎◌, inl, inr, refl, true, false, ◌&&◌, ◌||◌, sym, subst,
  Option, none, some, is_some, arith,
}
use go_psrp.Common.Int.{ℤ, pos, negsuc, pos_part, is_zero_ℤ, ltb_ℤ, leb_ℤ}
use go_psrp.Common.Errors.{GoError}
use go_psrp.Retry.{ReconnectPolicy}
use go_psrp.Reconnection.{
  Env, Outcome, calculate_backoff, waited, backed_off, attempted, loop, next_delay, jittered,
  attempt_reconnect_with_backoff,
}

zero_attempts :
    (m : ℤ) → is_zero_ℤ m ≡ true → (n : ℕ) → (ltb_ℤ (pos 0) m && leb_ℤ m (pos n)) ≡ false
zero_attempts (pos zero) z n = refl
zero_attempts (pos (suc m)) z n = ground arith
zero_attempts (negsuc m) z n = ground arith

in_limit : (m : ℤ) (n k : ℕ) → 0 < n → n + k ≤ pos_part m → (is_zero_ℤ m || leb_ℤ (pos n) m) ≡ true
in_limit (pos zero) n k o l = refl
in_limit (pos (suc m)) n k o l = ground arith
in_limit (negsuc m) n k o l = ground arith

module _ (env : Env) where
  open env use {floats, World, rand, attempt_reconnect, wait, interrupted}

  Ended : Outcome env → Type 0
  Ended r = is_some r.1 ≡ true

  module _ (p : ReconnectPolicy floats) (limit : ℕ) (limited : p.max_attempts ≡ pos limit)
      (positive : 0 < limit) where
    backed_off-Ended :
        (again : GoError → World → Outcome env) (e : GoError) (q : World × ℤ)
        → ((e : GoError) (w : World) → Ended (again e w))
        → Ended (backed_off env again e q)
    unfolding backed_off waited Ended
    backed_off-Ended again e (w, d) f = grind (arith, f)

    attempted-Ended :
        (n : ℕ) (d : ℤ) (again : GoError → World → Outcome env) (q : World × Option GoError)
        → (n < limit → (e : GoError) (w : World) → Ended (again e w))
        → Ended (attempted env p n d again q)
    unfolding attempted Ended
    attempted-Ended n d again (w, none) f = refl
    attempted-Ended n d again (w, some e) f =
        let next : n < limit → Ended (backed_off env again e (calculate_backoff env p d w)) =
          λ l. backed_off-Ended again e (calculate_backoff env p d w) (f l) in
        grind (arith, limited, next)

    loop-Ended :
        (fuel n : ℕ) (d : ℤ) (last : Option GoError) (w : World)
        → limit < n + fuel
        → Ended (loop env p (suc fuel) n d last w)
    unfolding loop Ended
    loop-Ended zero n d last w l = grind (arith, limited)
    loop-Ended (suc fuel) n d last w l =
        let again = λ (e : GoError). loop env p (suc fuel) (suc n) (next_delay env p d) (some e) in
        let next =
          attempted-Ended n d again (attempt_reconnect w)
            (λ m e v. loop-Ended fuel (suc n) (next_delay env p d) (some e) v (omega arith)) in
        grind (arith, limited, next)

  -- With a positive MaxAttempts, the attempts end, whatever a reconnection and the waits do: a round
  -- for each attempt and one more are enough.
  pub attempts_end :
      (p : ReconnectPolicy floats) (limit : ℕ) (w : World)
      → p.max_attempts ≡ pos limit
      → 0 < limit
      → is_some (attempt_reconnect_with_backoff env p (suc limit) w).1 ≡ true
  unfolding attempt_reconnect_with_backoff Ended
  attempts_end p limit w e l = loop-Ended p limit e l limit 1 p.initial_delay none w (omega arith)

  -- A server that comes back: the number of failures still to come, which each failed attempt brings
  -- down, while nothing interrupts the attempts.
  pub record ComesBack (failures : World → ℕ) : Type 0 where
    pub closer :
        (w : World)
        → ((attempt_reconnect w).1 ≡ none) ⊎ (suc (failures (attempt_reconnect w).0) ≡ failures w)
    pub waits : (d : ℤ) (w : World) → ((wait d w).1 ≡ none) × (failures (wait d w).0 ≡ failures w)
    pub draws : (w : World) → failures (rand w).0 ≡ failures w
    pub uninterrupted : (w : World) → interrupted w ≡ none

  module _ {failures : World → ℕ} (back : ComesBack failures) (p : ReconnectPolicy floats) where
    -- MaxAttempts leaves room for the failures from this attempt on.
    abbrev Allowed : ℕ → ℕ → Type 0
    Allowed n k = (is_zero_ℤ p.max_attempts ≡ true) ⊎ ((0 < n) × (n + k ≤ pos_part p.max_attempts))

    waited-reaches :
        (again : GoError → World → Outcome env) (e : GoError) (q : World × Option GoError)
        → q.1 ≡ none
        → (again e q.0).1 ≡ some none
        → (waited env again e q).1 ≡ some none
    unfolding waited
    waited-reaches again e (w, none) f r = r
    waited-reaches again e (w, some x) f r = ground arith

    jittered-keeps : (d : ℤ) (w : World) → failures (calculate_backoff env p d w).0 ≡ failures w
    unfolding calculate_backoff jittered
    jittered-keeps d w = ground (arith, back.draws w)

    not_last :
        (n k : ℕ)
        → Allowed n (suc k)
        → (ltb_ℤ (pos 0) p.max_attempts && leb_ℤ p.max_attempts (pos n)) ≡ false
    not_last n k (inl z) = zero_attempts p.max_attempts z n
    not_last n k (inr (o, l)) = ground arith

    in_range :
        (n k : ℕ) → Allowed n k → (is_zero_ℤ p.max_attempts || leb_ℤ (pos n) p.max_attempts) ≡ true
    in_range n k (inl z) = ground (arith, z)
    in_range n k (inr (o, l)) = in_limit p.max_attempts n k o l

    shifted :
        (n : ℕ) (v w : World)
        → suc (failures v) ≡ failures w
        → Allowed n (failures w)
        → Allowed (suc n) (failures v)
    shifted n v w m (inl z) = inl z
    shifted n v w m (inr (o, l)) = inr (omega arith, omega arith)

    attempted-reaches :
        (n : ℕ) (d : ℤ) (again : GoError → World → Outcome env) (k : ℕ) (q : World × Option GoError)
        → Allowed n k
        → (q.1 ≡ none) ⊎ (suc (failures q.0) ≡ k)
        → ((e : GoError) (w : World) → suc (failures w) ≡ k → (again e w).1 ≡ some none)
        → (attempted env p n d again q).1 ≡ some none
    unfolding attempted backed_off
    attempted-reaches n d again k (w, none) a o f = refl
    attempted-reaches n d again k (w, some e) a (inl x) f = ground arith
    attempted-reaches n d again k (w, some e) a (inr x) f =
        let (w', d') = calculate_backoff env p d w in
        let kept : suc (failures (wait d' w').0) ≡ k =
          omega (arith, (back.waits d' w').1, jittered-keeps d w) in
        let next =
          waited-reaches again e (wait d' w') (back.waits d' w').0 (f e (wait d' w').0 kept) in
        let more = not_last n (failures w) (subst (Allowed n) (sym x) a) in
        ground (arith, more, next)

    loop-reaches :
        (fuel n : ℕ) (d : ℤ) (last : Option GoError) (w : World)
        → failures w ≤ fuel
        → Allowed n (failures w)
        → (loop env p (suc fuel) n d last w).1 ≡ some none
    unfolding loop
    loop-reaches zero n d last w l a =
        let next =
          attempted-reaches n d (λ e v. (v, none)) (failures w) (attempt_reconnect w) a
            (back.closer w) (λ e v m. ground arith) in
        grind (arith, in_range n (failures w) a, back.uninterrupted w, next)
    loop-reaches (suc fuel) n d last w l a =
        let next =
          attempted-reaches n d (λ e. loop env p (suc fuel) (suc n) (next_delay env p d) (some e))
            (failures w) (attempt_reconnect w) a (back.closer w)
            (λ e v m.
              loop-reaches fuel (suc n) (next_delay env p d) (some e) v (omega arith)
                (shifted n v w m a)) in
        grind (arith, in_range n (failures w) a, back.uninterrupted w, next)

    -- A server that comes back after some failures is reached, if MaxAttempts is 0 or above the number
    -- of these failures and nothing interrupts the attempts: a round for each failure and one more.
    pub reaches :
        (w : World)
        → (is_zero_ℤ p.max_attempts ≡ true) ⊎ (failures w < pos_part p.max_attempts)
        → (attempt_reconnect_with_backoff env p (suc (failures w)) w).1 ≡ some none
    unfolding attempt_reconnect_with_backoff
    reaches w (inl z) = loop-reaches (failures w) 1 p.initial_delay none w (omega arith) (inl z)
    reaches w (inr l) =
        loop-reaches (failures w) 1 p.initial_delay none w (omega arith)
          (inr (omega arith, omega arith))
