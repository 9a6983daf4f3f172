-- ===== src/Transfer/Segments/Tiling.antt =====
-- client/filetransfer.go: the segments of copyFileParallelHvSocket cover the file.
use go_psrp.Common.{
  ℕ, zero, suc, ◌+◌, ◌-◌, ◌*◌, ◌/◌, ◌<◌, ◌≤◌, ◌≡◌, ap, subst, ◌∙◌, ◌⊎◌, inl, inr, Bool, true, false,
  ◌||◌, List, [], ◌∷◌, ◌==◌, length, take, drop, length-take, length-drop, get_elem?, Bool-cases,
  Option, none, arith,
}
use native.Mathlib.Nat.{
  suc-mul, lt-div-mul-add, div-mul-le_self, div-lt_iff_lt-mul, mul-le-mul_right, mul-div-le,
}
use go_psrp.Common.Slices.{
  trichotomy, write_at, get_elem?-ext, length-write_at, get_elem?-write_at_out, write_at-agrees,
}
use go_psrp.Common.Text.{Text}
use go_psrp.Transfer.Progress.{TransferProgress}
use go_psrp.Transfer.Segments.{
  Services, segment_size, start_offset, end_offset, stream_chunk, worker,
}
use go_psrp.Transfer.Segments.Sending.{Honest, slice, worker-input}

where_is : (a b j : ℕ) → a ≤ b → ((a ≤ j) × (j < b)) ⊎ ((j < a) ⊎ (b ≤ j))
where_is a b j l = elim (trichotomy j a) [
  | inl before ↦ inr (inl before)
  | inr from ↦ elim (trichotomy j b) [
    | inl to ↦ inl (ground (arith, from), to)
    | inr behind ↦ inr (inr (ground (arith, behind)))
  ]
]

inside_out : (a b j : ℕ) → (a ≤ j) × (j < b) → ¬ ((j < a) ⊎ (b ≤ j))
inside_out a b j (l, m) (inl n) = omega arith
inside_out a b j (l, m) (inr n) = omega arith

wide : (n s : ℕ) → 0 < n * s → 0 < s
wide n zero l = omega arith
wide n (suc s) l = omega arith

-- The workers' inputs, written one after the other at the offsets of their segments.
abbrev pub assemble : (ℕ → ℕ) → (ℕ → Text) → List ℕ → Text → Text
assemble offset sent [] file = file
assemble offset sent (i ∷ order) file =
    assemble offset sent order (write_at (offset i) (sent i) file)

abbrev pub picked : ℕ → List ℕ → Bool
picked i [] = false
picked i (k ∷ order) = i == k || picked i order

-- The workers of a list are among the first n.
abbrev pub Below : ℕ → List ℕ → Type 0
Below n [] = Unit
Below n (i ∷ order) = (i < n) × Below n order

module _ (total count : ℕ) (some_worker : 0 < count) where
  start_within : (i : ℕ) → i < count → start_offset total count i ≤ total
  unfolding start_offset segment_size
  start_within i l =
      let up : i * (total / count) ≤ count * (total / count) =
        mul-le-mul_right (total / count) (omega arith) in
      omega (arith, up, mul-div-le total count)

  end_within :
      (i : ℕ)
      → i < count
      → (start_offset total count i ≤ end_offset total count i) × (end_offset total count i ≤ total)
  unfolding end_offset start_offset segment_size
  end_within i l =
      let up : suc i * (total / count) ≤ count * (total / count) =
        mul-le-mul_right (total / count) (omega arith) in
      ground (arith, up, start_within i l, mul-div-le total count, suc-mul i (total / count))

  -- Each byte is in a worker's segment.
  segment_of :
      (j : ℕ)
      → j < total
      → (i : ℕ) × (i < count) × (start_offset total count i ≤ j) × (j < end_offset total count i)
  unfolding end_offset start_offset segment_size
  segment_of j l = elim (trichotomy j ((count - 1) * (total / count))) [
    | inl before ↦
        let some_bytes : 0 < total / count =
          wide (count - 1) (total / count) (omega (arith, before)) in
        let i = j / (total / count) in
        let early : i < count - 1 =
          (div-lt_iff_lt-mul {k = total / count} {x = j} {y = count - 1} some_bytes).1 before in
        let from = div-mul-le_self j (total / count) in
        let to : j < i * (total / count) + total / count = lt-div-mul-add some_bytes in
        (i, omega (arith, early), from, ground (arith, early, to))
    | inr behind ↦
        let from : (count - 1) * (total / count) ≤ j = ground (arith, behind) in
        (count - 1, omega (arith, some_worker), from, ground (arith, l))
  ]

module _ (whole : Text) (count : ℕ) (some_worker : 0 < count) (sent : ℕ → Text) where
  abbrev segment : ℕ → Text
  segment i =
      let first = start_offset (length whole) count i in
      take (end_offset (length whole) count i - first) (drop first whole)

  segment_fits :
      (i : ℕ) (file : Text)
      → i < count
      → length file ≡ length whole
      → start_offset (length whole) count i + length (segment i) ≤ length file
  segment_fits i file within size =
      let first = start_offset (length whole) count i in
      omega (
        arith,
        length-take (end_offset (length whole) count i - first) (drop first whole),
        length-drop first whole,
        size,
        end_within (length whole) count some_worker i within,
      )

  length-assemble :
      (order : List ℕ) (file : Text)
      → Below count order
      → ((i : ℕ) → i < count → sent i ≡ segment i)
      → length file ≡ length whole
      → length (assemble (start_offset (length whole) count) sent order file) ≡ length whole
  length-assemble [] file below right size = size
  length-assemble (i ∷ order) file (within, below) right size =
      let first = start_offset (length whole) count i in
      length-assemble order (write_at first (sent i) file) below right (
        ap (λ (t : Text). length (write_at first t file)) (right i within)
        ∙ length-write_at first (segment i) file (segment_fits i file within size)
        ∙ size)

  same_segment :
      (k i : ℕ) {j : ℕ}
      → (k == i) ≡ true
      → start_offset (length whole) count k ≤ j
      → j < end_offset (length whole) count k
      → (start_offset (length whole) count i ≤ j) × (j < end_offset (length whole) count i)
  same_segment k i {j} e from to =
      let at : k ≡ i = ground (arith, e) in
      subst
        (λ n. (start_offset (length whole) count n ≤ j) × (j < end_offset (length whole) count n))
        at (from, to)

  -- Positions that hold the file's byte keep it, and those of a segment that is written get it.
  assemble-agrees :
      (order : List ℕ) (file : Text) (j : ℕ)
      → Below count order
      → ((i : ℕ) → i < count → sent i ≡ segment i)
      → length file ≡ length whole
      → j < length whole
      → (get_elem? file j ≡ get_elem? whole j)
        ⊎ ((i : ℕ) × (picked i order ≡ true)
            × (start_offset (length whole) count i ≤ j)
            × (j < end_offset (length whole) count i))
      → get_elem? (assemble (start_offset (length whole) count) sent order file) j
        ≡ get_elem? whole j
  assemble-agrees [] file j below right size l (inl e) = e
  assemble-agrees [] file j below right size l (inr (i, p, from, to)) = cc
  assemble-agrees (i ∷ order) file j (within, below) right size l have =
      let first = start_offset (length whole) count i in
      let last = end_offset (length whole) count i in
      let next = write_at first (sent i) file in
      let same : next ≡ write_at first (segment i) file =
        ap (λ (t : Text). write_at first t file) (right i within) in
      let (ordered, inside) = end_within (length whole) count some_worker i within in
      let part_size = length-take (last - first) (drop first whole) in
      let deep = length-drop first whole in
      let fits = segment_fits i file within size in
      let size' = ap length same ∙ length-write_at first (segment i) file fits ∙ size in
      assemble-agrees order next j below right size' l (elim (where_is first last j ordered) [
        | inl (from, to) ↦ inl (
            ap (λ (t : Text). get_elem? t j) same
            ∙ write_at-agrees first (last - first) file whole j size
                (omega (arith, ordered, inside)) (from, omega (arith, to), l))
        | inr out ↦
            let kept : get_elem? next j ≡ get_elem? file j =
              ap (λ (t : Text). get_elem? t j) same
              ∙ get_elem?-write_at_out first (segment i) file j fits (elim out [
                | inl b ↦ inl b
                | inr b ↦ inr (omega (arith, part_size, b, ordered))
              ]) in
            elim have [
              | inl e ↦ inl (kept ∙ e)
              | inr (k, p, from, to) ↦ elim (Bool-cases (k == i)) [
                | inl e ↦ absurd (inside_out first last j (same_segment k i e from to) out)
                | inr e ↦ inr (k, ground (arith, p, e), from, to)
              ]
            ]
      ])

module _ (services : Services) (path whole : Text) (input : services.World → Text)
    (honest : Honest services whole input) (count : ℕ) (some_worker : 0 < count) where
  whole_segment :
      (i : ℕ)
      → slice services whole input honest path count i
        ≡ take
            (end_offset (length whole) count i - start_offset (length whole) count i)
            (drop (start_offset (length whole) count i) whole)
  whole_segment i =
      let first = start_offset (length whole) count i in
      let size = end_offset (length whole) count i - first in
      ap (λ n. take n (drop (first + 0 * stream_chunk) whole)) (omega arith)
      ∙ ap (λ n. take size (drop n whole)) (omega arith)

  pub worker-assembles :
      (worlds : ℕ → services.World) (progress : Option TransferProgress) (order : List ℕ)
      (file : Text)
      → let final = λ (i : ℕ). worker services path (length whole) count i progress (worlds i) in
        ((i : ℕ) → i < count → (final i).1 ≡ none)
        → Below count order
        → ((i : ℕ) → i < count → picked i order ≡ true)
        → length file ≡ length whole
        → assemble (start_offset (length whole) count) (λ i. input (final i).0.world) order file
          ≡ whole
  worker-assembles worlds progress order file succeed below all size =
      let sent : ℕ → Text = λ (i : ℕ).
        input (worker services path (length whole) count i progress (worlds i)).0.world in
      let right : (i : ℕ) → i < count → sent i ≡ segment whole count some_worker sent i = λ i l.
        worker-input services whole input honest path count i progress (worlds i) (succeed i l)
        ∙ whole_segment i in
      get_elem?-ext (assemble (start_offset (length whole) count) sent order file) whole
        (length-assemble whole count some_worker sent order file below right size)
        (λ (j : ℕ) (l : j < length whole).
          let (i, few, from, to) = segment_of (length whole) count some_worker j l in
          assemble-agrees whole count some_worker sent order file j below right size l
            (inr (i, all i few, from, to)))
