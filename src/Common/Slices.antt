-- ===== src/Common/Slices.antt =====
-- Parts of lists by their position: what a part holds, and lists that agree at every position.
use Prim.Native.Nat.{ℕ, zero, suc, ◌+◌, ◌-◌, ◌≤◌, ◌<◌}
use mathlib.Core.Path.{◌≡◌, refl, ap, sym, ◌∙◌}
use mathlib.Core.Logic.{◌≢◌, ◌⊎◌, inl, inr}
use mathlib.Core.List.{List, [], ◌∷◌, ◌++◌}
use native.Mathlib.Omega.{arith}
use go_psrp.Common.Lists.{length, take, drop, get_elem?, length-append, length-take, length-drop}

pub trichotomy : (a b : ℕ) → (a < b) ⊎ (a ≡ b) ⊎ (b < a)
trichotomy zero zero = inr (inl refl)
trichotomy zero (suc b) = inl (omega arith)
trichotomy (suc a) zero = inr (inr (omega arith))
trichotomy (suc a) (suc b) = elim (trichotomy a b) [
  | inl l ↦ inl (omega arith)
  | inr (inl e) ↦ inr (inl (omega arith))
  | inr (inr l) ↦ inr (inr (omega arith))
]

-- A write over the bytes from a position on, within the list.
abbrev pub write_at {ℓ} : {A : Type ℓ} → ℕ → List A → List A → List A
write_at offset part xs = take offset xs ++ (part ++ drop (offset + length part) xs)

suc_add : (n j : ℕ) → suc (n + j) ≡ suc n + j
suc_add n j = omega arith

not_zero : {n : ℕ} → ¬ (suc n ≤ 0)
not_zero l = omega arith

zero-ne-suc : {n : ℕ} → 0 ≢ suc n
zero-ne-suc e = omega arith

module _ {ℓ} {A : Type ℓ} where
  pub get_elem?-drop : (n j : ℕ) (xs : List A) → get_elem? (drop n xs) j ≡ get_elem? xs (n + j)
  get_elem?-drop zero j xs = grind arith
  get_elem?-drop (suc n) j [] = refl
  get_elem?-drop (suc n) j (x ∷ xs) = get_elem?-drop n j xs ∙ ap (get_elem? (x ∷ xs)) (suc_add n j)

  pub get_elem?-take : (n j : ℕ) (xs : List A) → j < n → get_elem? (take n xs) j ≡ get_elem? xs j
  get_elem?-take zero j xs l = elim l [ ]
  get_elem?-take (suc n) j [] l = refl
  get_elem?-take (suc n) zero (x ∷ xs) l = refl
  get_elem?-take (suc n) (suc j) (x ∷ xs) l = get_elem?-take n j xs (omega arith)

  pub get_elem?-append_left :
      (xs ys : List A) (j : ℕ) → j < length xs → get_elem? (xs ++ ys) j ≡ get_elem? xs j
  get_elem?-append_left [] ys j l = elim l [ ]
  get_elem?-append_left (x ∷ xs) ys zero l = refl
  get_elem?-append_left (x ∷ xs) ys (suc j) l = get_elem?-append_left xs ys j (omega arith)

  pub get_elem?-append_right :
      (xs ys : List A) (j : ℕ) → get_elem? (xs ++ ys) (length xs + j) ≡ get_elem? ys j
  get_elem?-append_right [] ys j = grind arith
  get_elem?-append_right (x ∷ xs) ys j =
      ap (get_elem? (x ∷ (xs ++ ys))) (sym (suc_add (length xs) j)) ∙ get_elem?-append_right xs ys j

  -- Lists of one length that agree at every position are equal.
  pub get_elem?-ext :
      (xs ys : List A)
      → length xs ≡ length ys
      → ((j : ℕ) → j < length ys → get_elem? xs j ≡ get_elem? ys j)
      → xs ≡ ys
  get_elem?-ext [] [] e f = refl
  get_elem?-ext [] (y ∷ ys) e f = absurd (zero-ne-suc e)
  get_elem?-ext (x ∷ xs) [] e f = absurd (zero-ne-suc (sym e))
  get_elem?-ext (x ∷ xs) (y ∷ ys) e f =
      let head = f zero (omega arith) in
      let tail =
        get_elem?-ext xs ys (omega arith)
          (λ (j : ℕ) (l : j < length ys). f (suc j) (omega arith)) in
      cc

  pub length-write_at :
      (offset : ℕ) (part xs : List A)
      → offset + length part ≤ length xs
      → length (write_at offset part xs) ≡ length xs
  length-write_at offset part xs l = omega (
    arith,
    length-append (take offset xs) (part ++ drop (offset + length part) xs),
    length-append part (drop (offset + length part) xs),
    length-take offset xs,
    length-drop (offset + length part) xs,
  )

  pub get_elem?-write_at_out :
      (offset : ℕ) (part xs : List A) (j : ℕ)
      → offset + length part ≤ length xs
      → (j < offset) ⊎ (offset + length part ≤ j)
      → get_elem? (write_at offset part xs) j ≡ get_elem? xs j
  get_elem?-write_at_out offset part xs j l (inl before) =
      get_elem?-append_left (take offset xs) (part ++ drop (offset + length part) xs) j
        (omega (arith, length-take offset xs))
      ∙ get_elem?-take offset j xs before
  get_elem?-write_at_out offset part xs j l (inr behind) =
      let rest = drop (offset + length part) xs in
      let k = j - (offset + length part) in
      let at : j ≡ length (take offset xs) + (length part + k) =
        omega (arith, length-take offset xs) in
      let back : offset + length part + k ≡ j = omega arith in
      ap (get_elem? (write_at offset part xs)) at
      ∙ get_elem?-append_right (take offset xs) (part ++ rest) (length part + k)
      ∙ get_elem?-append_right part rest k
      ∙ get_elem?-drop (offset + length part) k xs
      ∙ ap (get_elem? xs) back

  pub get_elem?-write_at_in :
      (offset : ℕ) (part xs : List A) (j : ℕ)
      → offset + length part ≤ length xs
      → j < length part
      → get_elem? (write_at offset part xs) (offset + j) ≡ get_elem? part j
  get_elem?-write_at_in offset part xs j l m =
      let rest = drop (offset + length part) xs in
      let at : offset + j ≡ length (take offset xs) + j = omega (arith, length-take offset xs) in
      ap (get_elem? (write_at offset part xs)) at
      ∙ get_elem?-append_right (take offset xs) (part ++ rest) j
      ∙ get_elem?-append_left part rest j m

  -- Writing the bytes that another list has there makes these positions agree with it.
  pub write_at-agrees :
      (offset size : ℕ) (xs ys : List A) (j : ℕ)
      → length xs ≡ length ys
      → offset ≤ length ys
      → (offset ≤ j) × (j < offset + size) × (j < length ys)
      → get_elem? (write_at offset (take size (drop offset ys)) xs) j ≡ get_elem? ys j
  write_at-agrees offset size xs ys j e l (from, to, within) =
      let part = take size (drop offset ys) in
      let k = j - offset in
      let here : offset + k ≡ j = omega arith in
      let wide = length-take size (drop offset ys) in
      let deep = length-drop offset ys in
      ap (get_elem? (write_at offset part xs)) (sym here)
      ∙ get_elem?-write_at_in offset part xs k (omega arith) (omega arith)
      ∙ get_elem?-take size k (drop offset ys) (omega arith)
      ∙ get_elem?-drop offset k ys
      ∙ ap (get_elem? ys) here

  pub drop_nil : (n : ℕ) → drop {A = A} n [] ≡ []
  drop_nil zero = refl
  drop_nil (suc n) = refl

  pub drop-drop : (m n : ℕ) (xs : List A) → drop m (drop n xs) ≡ drop (n + m) xs
  drop-drop m zero xs = ap (λ k. drop k xs) (omega arith)
  drop-drop m (suc n) [] = drop_nil m ∙ sym (drop_nil (suc n + m))
  drop-drop m (suc n) (x ∷ xs) = drop-drop m n xs ∙ ap (λ k. drop k (x ∷ xs)) (suc_add n m)

  pub drop_all : (n : ℕ) (xs : List A) → length xs ≤ n → drop n xs ≡ []
  drop_all zero [] l = refl
  drop_all zero (x ∷ xs) l = absurd (not_zero l)
  drop_all (suc n) [] l = refl
  drop_all (suc n) (x ∷ xs) l = drop_all n xs (omega arith)

  pub append_nil : (xs : List A) → xs ++ [] ≡ xs
  append_nil [] = refl
  append_nil (x ∷ xs) = ap (λ ys. x ∷ ys) (append_nil xs)
