-- ===== src/Matching/Search.antt =====
-- client/reconnect.go: containsIgnoreCase finds exactly the parts of a text that fold to the pattern.
use go_psrp.Common.{
  ℕ, zero, suc, ◌+◌, ◌<◌, ◌≡◌, refl, sym, ◌∙◌, ap, ◌↔◌, inl, inr, true, [], ◌∷◌, ◌++◌, arith, leb,
  length, Bool-cases, length-append, subst,
}
use go_psrp.Common.Text.{Text, to_lower, lower_byte}
use go_psrp.Matching.{matches_at, scan, bytes_contains, contains_ignore_case}

matches_at-prefix : (b sub : Text) → matches_at b sub ≡ true → (c : Text) × (b ≡ sub ++ c)
unfolding matches_at
matches_at-prefix b [] h = (b, refl)
matches_at-prefix [] (y ∷ sub) h = cc
matches_at-prefix (x ∷ b) (y ∷ sub) h =
    let (c, e) = matches_at-prefix b sub (ground arith) in (c, ground arith)

prefix-matches_at : (sub c : Text) → matches_at (sub ++ c) sub ≡ true
unfolding matches_at
prefix-matches_at [] c = refl
prefix-matches_at (y ∷ sub) c = ground (arith, prefix-matches_at sub c)

-- The pattern stands in the text with fewer than `k` bytes before it.
abbrev FoundBelow : ℕ → Text → Text → Type 0
FoundBelow k b sub = (a : Text) × (c : Text) × (b ≡ a ++ (sub ++ c)) × (length a < k)

scan-FoundBelow : (k : ℕ) (b sub : Text) → scan k b sub ≡ true → FoundBelow k b sub
unfolding scan
scan-FoundBelow zero b sub h = cc
scan-FoundBelow (suc k) [] sub h =
    let (c, e) = matches_at-prefix [] sub h in ([], c, e, omega arith)
scan-FoundBelow (suc k) (x ∷ b) sub h = elim (Bool-cases (matches_at (x ∷ b) sub)) [
  | inl here ↦ let (c, e) = matches_at-prefix (x ∷ b) sub here in ([], c, e, omega arith)
  | inr later ↦
      let (a, c, e, l) = scan-FoundBelow k b sub (rw later at h) in
      (x ∷ a, c, ap (◌∷◌ x) e, omega arith)
]

scan_here : (k : ℕ) (b sub : Text) → matches_at b sub ≡ true → scan (suc k) b sub ≡ true
unfolding scan
scan_here k [] sub h = h
scan_here k (x ∷ b) sub h = rw h

FoundBelow-scan : (k : ℕ) (a sub c : Text) → length a < k → scan k (a ++ (sub ++ c)) sub ≡ true
unfolding scan
FoundBelow-scan zero a sub c l = absurd (omega arith)
FoundBelow-scan (suc k) [] sub c l = scan_here k (sub ++ c) sub (prefix-matches_at sub c)
FoundBelow-scan (suc k) (x ∷ a) sub c l = ground (arith, FoundBelow-scan k a sub c (omega arith))

length-to_lower : (s : Text) → length (to_lower s) ≡ length s
length-to_lower [] = refl
length-to_lower (c ∷ s) = ap suc (length-to_lower s)

pub to_lower-append : (s t : Text) → to_lower (s ++ t) ≡ to_lower s ++ to_lower t
to_lower-append [] t = refl
to_lower-append (c ∷ s) t = ap (◌∷◌ (lower_byte c)) (to_lower-append s t)

-- A split of the lowered text comes from a split of the text.
to_lower-split :
    (s a b : Text)
    → to_lower s ≡ a ++ b
    → (x : Text) × (y : Text) × (s ≡ x ++ y) × (to_lower x ≡ a) × (to_lower y ≡ b)
to_lower-split s [] b e = ([], s, refl, refl, e)
to_lower-split [] (z ∷ a) b e = cc
to_lower-split (c ∷ s) (z ∷ a) b e =
    let (x, y, p, q, r) = to_lower-split s a b (ground arith) in
    (c ∷ x, y, ap (◌∷◌ c) p, ground arith, r)

-- The text has a part that differs from the pattern in the case of its letters alone.
abbrev pub Occurs : Text → Text → Type 0
Occurs sub s =
    (before : Text) × (part : Text) × (after : Text) × (s ≡ before ++ (part ++ after))
    × (to_lower part ≡ to_lower sub)

bytes_contains-occurs :
    (b sub : Text) → bytes_contains b sub ≡ true → (a : Text) × (c : Text) × (b ≡ a ++ (sub ++ c))
unfolding bytes_contains
bytes_contains-occurs b sub h = let (a, c, e, l) = scan-FoundBelow _ b sub h in (a, c, e)

occurs-bytes_contains : (a sub c : Text) → bytes_contains (a ++ (sub ++ c)) sub ≡ true
unfolding bytes_contains
occurs-bytes_contains a sub c =
    let total : length (a ++ (sub ++ c)) ≡ length a + (length sub + length c) =
      length-append a (sub ++ c) ∙ ap (◌+◌ (length a)) (length-append sub c) in
    let rounds : leb (length sub) (length (a ++ (sub ++ c))) ≡ true = ground arith in
    rw rounds (FoundBelow-scan _ a sub c (omega arith))

contains_ignore_case-Occurs : (s sub : Text) → contains_ignore_case s sub ≡ true → Occurs sub s
unfolding contains_ignore_case
contains_ignore_case-Occurs s sub h =
    let (a, c, e) = bytes_contains-occurs (to_lower s) (to_lower sub) (ground arith) in
    let (x, y, p, q, r) = to_lower-split s a (to_lower sub ++ c) e in
    let (u, v, p', q', r') = to_lower-split y (to_lower sub) c r in
    (x, u, v, p ∙ ap (λ t. x ++ t) p', q')

Occurs-contains_ignore_case : (s sub : Text) → Occurs sub s → contains_ignore_case s sub ≡ true
unfolding contains_ignore_case
Occurs-contains_ignore_case s sub (before, part, after, e, f) = rw fits (
    subst (λ t. bytes_contains t (to_lower sub) ≡ true) (sym lowered)
      (occurs-bytes_contains (to_lower before) (to_lower sub) (to_lower after)))
  where
    lowered : to_lower s ≡ to_lower before ++ (to_lower sub ++ to_lower after)
    lowered =
        ap to_lower e
        ∙ to_lower-append before (part ++ after)
        ∙ ap (λ t. to_lower before ++ t)
            (to_lower-append part after ∙ ap (λ t. t ++ to_lower after) f)

    same_length : length part ≡ length sub
    same_length = sym (length-to_lower part) ∙ ap length f ∙ length-to_lower sub

    whole : length s ≡ length before + (length part + length after)
    whole =
        ap length e
        ∙ length-append before (part ++ after)
        ∙ ap (◌+◌ (length before)) (length-append part after)

    fits : leb (length sub) (length s) ≡ true
    fits = ground (arith, whole, same_length)

-- containsIgnoreCase answers true exactly when some part of the text equals the pattern up to the
-- case of ASCII letters.
pub contains_ignore_case_iff : (s sub : Text) → (contains_ignore_case s sub ≡ true) ↔ Occurs sub s
contains_ignore_case_iff s sub =
    (contains_ignore_case-Occurs s sub, Occurs-contains_ignore_case s sub)
