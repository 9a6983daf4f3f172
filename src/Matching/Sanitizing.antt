-- ===== src/Matching/Sanitizing.antt =====
-- client/client.go: a logged script shows no credentials.
use go_psrp.Common.{
  ℕ, ◌≤◌, ◌≡◌, refl, sym, ◌∙◌, ap, inl, inr, Bool, true, false, ◌&&◌, ◌||◌, List, [], ◌∷◌, ◌++◌,
  arith, leb, ◌==◌, length, Bool-cases, take, not, length-append, length-take, drop,
  take-append-drop, subst,
}
use go_psrp.Common.Text.{Text, to_lower, has_prefix, contains}
use go_psrp.Matching.{
  any_pattern, sensitive_patterns, contains_sensitive_pattern, sanitize_script_for_logging, notice,
  ellipsis,
}
use go_psrp.Matching.Search.{to_lower-append}

-- A text without a full stop.
abbrev no_dot : Text → Bool
no_dot [] = true
no_dot (c ∷ s) = not (c == b'.') && no_dot s

-- A pattern without a full stop does not reach over one.
has_prefix-cut :
    (p xs ys : Text)
    → no_dot p ≡ true
    → has_prefix (xs ++ b'.' ∷ ys) p ≡ true
    → has_prefix xs p ≡ true
has_prefix-cut [] xs ys d h = refl
has_prefix-cut (y ∷ p) [] ys d h = ground arith
has_prefix-cut (y ∷ p) (x ∷ xs) ys d h = ground (arith, has_prefix-cut p xs ys)

-- A part of a text holds no pattern that the text does not hold.
has_prefix-append : (p xs ys : Text) → has_prefix xs p ≡ true → has_prefix (xs ++ ys) p ≡ true
has_prefix-append [] xs ys h = refl
has_prefix-append (y ∷ p) [] ys h = cc
has_prefix-append (y ∷ p) (x ∷ xs) ys h = ground (arith, has_prefix-append p xs ys)

contains-append : (p xs ys : Text) → contains xs p ≡ true → contains (xs ++ ys) p ≡ true
contains-append [] [] [] h = refl
contains-append [] [] (y ∷ ys) h = refl
contains-append (q ∷ p) [] ys h = cc
contains-append p (x ∷ xs) ys h =
    ground (arith, has_prefix-append p (x ∷ xs) ys, contains-append p xs ys)

contains-cut :
    (p xs ys : Text)
    → no_dot p ≡ true
    → contains (xs ++ b'.' ∷ ys) p ≡ true
    → (contains xs p || contains (b'.' ∷ ys) p) ≡ true
contains-cut p [] ys d h = ground arith
contains-cut p (x ∷ xs) ys d h = ground (arith, has_prefix-cut p (x ∷ xs) ys, contains-cut p xs ys)

-- A pattern that neither reaches over the ellipsis nor stands in it.
abbrev is_clean : Text → Bool
is_clean p = no_dot p && not (contains ellipsis p)

abbrev all_clean : List Text → Bool
all_clean [] = true
all_clean (p ∷ ps) = is_clean p && all_clean ps

truncated_hides :
    (n : ℕ) (s p : Text)
    → is_clean p ≡ true
    → contains (to_lower s) p ≡ false
    → contains (to_lower (take n s ++ ellipsis)) p ≡ false
truncated_hides n s p clean h = elim (Bool-cases (contains (to_lower (take n s ++ ellipsis)) p)) [
  | inr hidden ↦ hidden
  | inl shown ↦
      let cut : (contains (to_lower (take n s)) p || contains ellipsis p) ≡ true =
        contains-cut p (to_lower (take n s)) (drop 1 ellipsis) (ground arith)
          (subst (λ t. contains t p ≡ true) (to_lower-append (take n s) ellipsis) shown) in
      let parts : to_lower (take n s) ++ to_lower (drop n s) ≡ to_lower s =
        sym (to_lower-append (take n s) (drop n s)) ∙ ap to_lower (take-append-drop n s) in
      absurd (ground (arith, contains-append p (to_lower (take n s)) (to_lower (drop n s)), parts))
]

any_pattern-hides :
    (n : ℕ) (s : Text) (ps : List Text)
    → all_clean ps ≡ true
    → any_pattern (contains (to_lower s)) ps ≡ false
    → any_pattern (contains (to_lower (take n s ++ ellipsis))) ps ≡ false
any_pattern-hides n s [] c h = refl
any_pattern-hides n s (p ∷ ps) c h = ground (
  arith,
  truncated_hides n s p (ground arith) (ground arith),
  any_pattern-hides n s ps (ground arith) (ground arith),
)

notice_clean : contains_sensitive_pattern notice ≡ false
unfolding contains_sensitive_pattern
notice_clean = refl

truncated_clean :
    (n : ℕ) (s : Text)
    → contains_sensitive_pattern s ≡ false
    → contains_sensitive_pattern (take n s ++ ellipsis) ≡ false
unfolding contains_sensitive_pattern
truncated_clean n s h = any_pattern-hides n s sensitive_patterns refl h

leb_bound : (s : Text) → leb (length s) 100 ≡ true → length s ≤ 115
leb_bound s h = ground arith

-- What is logged of a script holds none of the sensitive patterns, in no mixture of cases, whatever
-- the script is, and has at most 115 bytes.
pub sanitize_hides :
    (s : Text)
    → (contains_sensitive_pattern (sanitize_script_for_logging s) ≡ false)
      × (length (sanitize_script_for_logging s) ≤ 115)
unfolding sanitize_script_for_logging
sanitize_hides s = elim (Bool-cases (contains_sensitive_pattern s)) [
  | inl found ↦ rw found (notice_clean, omega arith)
  | inr clean ↦ elim (Bool-cases (leb (length s) 100)) [
    | inl short ↦ rw (clean, short) (clean, leb_bound s short)
    | inr long ↦
        rw (clean, long)
          (
            truncated_clean 100 s clean,
            omega (arith, length-append (take 100 s) ellipsis, length-take 100 s),
          )
  ]
]
