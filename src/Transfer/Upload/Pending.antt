-- ===== src/Transfer/Upload/Pending.antt =====
-- client/filetransfer.go: the jobs of copyFileParallel that are still to be done, and the chunks of
-- the file.
use go_psrp.Common.{
  ℕ, zero, suc, ◌+◌, ◌*◌, ◌/◌, ◌<◌, ◌≤◌, ◌≡◌, refl, ap, ◌≢◌, ◌⊎◌, inl, inr, true, Option, none,
  some, List, [], ◌∷◌, if◌then◌else◌, ◌==◌, is_some, length, replicate, arith,
}
use native.Mathlib.Nat.{div-mul-le_self, lt-div-mul-add, mul-le-mul_right, suc-mul}
use go_psrp.Common.Slices.{trichotomy}
use go_psrp.Common.Errors.{GoError}
use go_psrp.Transfer.Upload.{Phase, starting, holding, finished, first_error}

-- How often a job stands in the queue, or is held by a worker.
abbrev pub queued : ℕ → List ℕ → ℕ
queued k [] = 0
queued k (i ∷ q) = (if k == i then 1 else 0) + queued k q

abbrev pub holds : ℕ → Phase → ℕ
holds k (holding i) = if k == i then 1 else 0
holds k _ = 0

abbrev pub held : ℕ → List Phase → ℕ
held k [] = 0
held k (p ∷ ps) = holds k p + held k ps

abbrev pub ended : Phase → ℕ
ended finished = 1
ended _ = 0

abbrev pub count_ended : List Phase → ℕ
count_ended [] = 0
count_ended (p ∷ ps) = ended p + count_ended ps

-- Whether a byte is one of a chunk.
pub chunk_position :
    (i j c : ℕ)
    → 0 < c
    → ((j / c ≡ i) × (i * c ≤ j) × (j < i * c + c)) ⊎ (j / c ≢ i) × ((j < i * c) ⊎ (i * c + c ≤ j))
chunk_position i j c positive =
    let below = div-mul-le_self j c in
    let above : j < j / c * c + c = lt-div-mul-add positive in
    elim (trichotomy (j / c) i) [
      | inl l ↦
          let up : suc (j / c) * c ≤ i * c = mul-le-mul_right c (omega arith) in
          inr (omega arith, inl (omega (arith, above, up, suc-mul (j / c) c)))
      | inr (inl e) ↦
          let same : j / c * c ≡ i * c = ap (λ n. n * c) e in
          inl (e, omega (arith, below, same), omega (arith, above, same))
      | inr (inr l) ↦
          let down : suc i * c ≤ j / c * c = mul-le-mul_right c (omega arith) in
          inr (omega arith, inr (omega (arith, below, down, suc-mul i c)))
    ]

pub before_end : (offset j total : ℕ) → total ≤ offset → offset ≤ j → ¬ (j < total)
before_end offset j total k l m = omega arith

pub first_error-some : (f : Option GoError) (e : GoError) → is_some (first_error f (some e)) ≡ true
first_error-some none e = refl
first_error-some (some f) e = refl

pub first_error_keeps : (f e : Option GoError) → is_some f ≡ true → is_some (first_error f e) ≡ true
first_error_keeps none e h = cc
first_error_keeps (some f) e h = refl

pub impossible : (n m : ℕ) → 0 < n → ¬ (n + m + 0 ≡ 0)
impossible n m l e = omega arith

pub not_failed : (f : Option GoError) → is_some f ≡ true → ¬ (f ≡ none)
not_failed none h e = cc
not_failed (some f) h e = cc

pub queued-empty : (k : ℕ) (q : List ℕ) → length q ≡ 0 → queued k q ≡ 0
queued-empty k [] e = refl
queued-empty k (i ∷ q) e = omega arith

pub count-starting : (n : ℕ) → count_ended (replicate n starting) ≡ 0
count-starting zero = refl
count-starting (suc n) = omega (arith, count-starting n)

pub length-starting : (n : ℕ) → length (replicate n starting) ≡ n
length-starting zero = refl
length-starting (suc n) = ap suc (length-starting n)
