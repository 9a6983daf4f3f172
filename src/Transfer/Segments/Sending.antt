-- ===== src/Transfer/Segments/Sending.antt =====
-- client/filetransfer.go: what the workers of copyFileParallelHvSocket send.
use go_psrp.Common.{
  ℕ, zero, suc, ◌+◌, ◌-◌, ◌*◌, ◌≤◌, ◌≡◌, refl, sym, ap, ◌∙◌, ◌⊎◌, inl, inr, Bool, true, false,
  Option, none, some, [], ◌∷◌, ◌++◌, if◌then◌else◌, ◌==◌, ltb, length, take, drop, length-take,
  length-drop, Bool-cases, arith,
}
use mathlib.Core.List.{append_assoc}
use go_psrp.Common.Slices.{drop_all, drop-drop, append_nil}
use go_psrp.Common.Text.{Text}
use go_psrp.Common.Errors.{GoError}
use go_psrp.Transfer.Options.{num_chunks}
use go_psrp.Transfer.Progress.{TransferProgress, update}
use go_psrp.Transfer.Scripts.{segment_script}
use go_psrp.Transfer.Upload.{read_error}
use go_psrp.Transfer.Segments.{
  Services, Streaming, start_offset, end_offset, stream_chunk, connect_attempts, sent, chunk_read,
  to_read, checked, send_segment, settled, started, closed, connected, created, worker,
}

not_zero : {n : ℕ} → ¬ (suc n ≡ 0)
not_zero e = omega arith

no_bytes : (xs ys zs : Text) → length ys ≡ 0 → (length ys ≡ 0 → zs ≡ []) → xs ≡ xs ++ (ys ++ zs)
no_bytes xs [] zs z e = sym (ap (λ (t : Text). xs ++ t) (e refl) ∙ append_nil xs)
no_bytes xs (y ∷ ys) zs z e = absurd (not_zero z)

take_nil : (n : ℕ) → take {A = ℕ} n [] ≡ []
take_nil zero = refl
take_nil (suc n) = refl

suc_add : (m n : ℕ) → suc (m + n) ≡ suc m + n
suc_add m n = omega arith

empty : (xs : Text) → length xs ≡ 0 → xs ≡ []
empty xs e = drop_all 0 xs (omega (arith, e))

-- A part cut in two.
take-cut : (m n : ℕ) (xs : Text) → take m xs ++ take n (drop m xs) ≡ take (m + n) xs
take-cut zero n xs = ap (λ k. take k xs) (omega arith)
take-cut (suc m) n [] = take_nil n ∙ sym (take_nil (suc m + n))
take-cut (suc m) n (x ∷ xs) =
    ap (λ (t : Text). x ∷ t) (take-cut m n xs) ∙ ap (λ k. take k (x ∷ xs)) (suc_add m n)

module _ (services : Services) where
  open services use {
    World, create_worker, connect_worker, close_worker, pause, start, send_input, close_input,
    cancel, wait, limit, context_error, read_at,
  }

  -- `input` is what the stream of the worker has been given: SendInput hands the bytes on, and a new
  -- stream has none. ReadAt reads what the file `whole` has there.
  pub record Honest (whole : Text) (input : World → Text) : Type 0 where
    pub reads : (n offset : ℕ) → (read_at n offset).0 ≡ take n (drop offset whole)
    pub sends :
        (chunk : Text) (w : World)
        → (send_input chunk w).1 ≡ none
        → input (send_input chunk w).0 ≡ input w ++ chunk
    pub starts : (script : Text) (w : World) → input (start script w).0 ≡ []
    pub limits : (n : ℕ) (w : World) → input (limit n w) ≡ input w
    pub ends : (w : World) → input (close_input w) ≡ input w
    pub cancels : (w : World) → input (cancel w) ≡ input w
    pub waits : (w : World) → input (wait w).0 ≡ input w
    pub closes : (w : World) → input (close_worker w) ≡ input w

  module _ (whole : Text) (input : World → Text) (honest : Honest whole input) where
    sent-input :
        (again : Streaming services → Streaming services × Option GoError) (chunk : Text)
        (r : World × Option GoError) (s : Streaming services) (final : Text)
        → (r.1 ≡ none → input r.0 ≡ input s.world ++ chunk)
        → ((s' : Streaming services)
            → input s'.world ≡ input s.world ++ chunk
            → (again s').1 ≡ none
            → input (again s').0.world ≡ final)
        → (sent services again (length chunk) r s).1 ≡ none
        → input (sent services again (length chunk) r s).0.world ≡ final
    unfolding sent
    sent-input again chunk (w, some x) s final sends on e = cc
    sent-input again chunk (w, none) s final sends on e =
        on (record s { world = w; progress = update (length chunk) s.progress }) (sends refl) e

    -- With `piece` left to send of which a nonempty chunk comes first.
    chunk_read-input :
        (again : Streaming services → Streaming services × Option GoError) (chunk rest : Text)
        (x : Option GoError) (s : Streaming services)
        → (length chunk ≡ 0 → rest ≡ [])
        → ((s' : Streaming services)
            → input s'.world ≡ input s.world ++ chunk
            → (again s').1 ≡ none
            → input (again s').0.world ≡ input s.world ++ (chunk ++ rest))
        → (chunk_read services again chunk x s).1 ≡ none
        → input (chunk_read services again chunk x s).0.world ≡ input s.world ++ (chunk ++ rest)
    unfolding chunk_read
    chunk_read-input again chunk rest (some x) s over on e = cc
    chunk_read-input again chunk rest none s over on e = elim (Bool-cases (length chunk == 0)) [
      | inl z ↦
          let empty = no_bytes (input s.world) chunk rest (ground (arith, z)) over in
          grind (arith, z, empty)
      | inr z ↦
          let next =
            sent-input again chunk (send_input chunk s.world) s (input s.world ++ (chunk ++ rest))
              (honest.sends chunk s.world) on in
          grind (arith, z, e, next)
    ]

    -- What is left of a segment before its k-th chunk.
    abbrev pub left : ℕ → ℕ → ℕ → Text
    left first size k = take (size - k * stream_chunk) (drop (first + k * stream_chunk) whole)

    take_none : (n : ℕ) (xs : Text) → n ≡ 0 → take n xs ≡ []
    take_none n xs z = ap (λ k. take k xs) z

    -- A chunk and what is left behind it.
    chunk_left :
        (first size k : ℕ)
        → take (to_read size k) (drop (first + k * stream_chunk) whole) ++ left first size (k + 1)
          ≡ left first size k
    unfolding to_read
    chunk_left first size k =
        let offset = first + k * stream_chunk in
        let here = drop offset whole in
        let remaining = size - k * stream_chunk in
        let rest = left first size (k + 1) in
        let chosen : (b : Bool)
            → ltb remaining stream_chunk ≡ b
            → take (to_read size k) here ++ rest
              ≡ take (if b then remaining else stream_chunk) here ++ rest =
          λ b e. ap (λ c. take (if c then remaining else stream_chunk) here ++ rest) e in
        elim (Bool-cases (ltb (size - k * stream_chunk) stream_chunk)) [
          | inl l ↦
              let end_here =
                take_none (size - (k + 1) * stream_chunk)
                  (drop (first + (k + 1) * stream_chunk) whole) (ground (arith, l)) in
              let nothing = append_nil (take (size - k * stream_chunk) here) in
              chosen true l
              ∙ ap (λ (t : Text). take (size - k * stream_chunk) here ++ t) end_here
              ∙ nothing
          | inr m ↦
              let next : drop (first + (k + 1) * stream_chunk) whole ≡ drop stream_chunk here =
                ap (λ n. drop n whole) (omega arith) ∙ sym (drop-drop stream_chunk offset whole) in
              let cut = take-cut stream_chunk (size - (k + 1) * stream_chunk) here in
              let whole_chunk : stream_chunk + (size - (k + 1) * stream_chunk)
                  ≡ size - k * stream_chunk =
                ground (arith, m) in
              let joined =
                ap (λ (t : Text). take stream_chunk here ++ take (size - (k + 1) * stream_chunk) t)
                  next
                ∙ cut
                ∙ ap (λ n. take n here) whole_chunk in
              chosen false m ∙ joined
        ]

    chunk_over :
        (first size k : ℕ)
        → length (take (to_read size k) (drop (first + k * stream_chunk) whole)) ≡ 0
        → left first size (k + 1) ≡ []
    unfolding to_read
    chunk_over first size k z =
        let offset = first + k * stream_chunk in
        let next = first + (k + 1) * stream_chunk in
        let size' = length-take (to_read size k) (drop offset whole) in
        let deep = length-drop offset whole in
        let behind : length (drop next whole) ≡ 0 ⊎ (size - (k + 1) * stream_chunk ≡ 0) =
          ground (arith, z, size', deep, length-drop next whole) in
        elim behind [
          | inl none_left ↦
              ap (λ (t : Text). take (size - (k + 1) * stream_chunk) t)
                (empty (drop next whole) none_left)
              ∙ take_nil (size - (k + 1) * stream_chunk)
          | inr stop ↦ take_none (size - (k + 1) * stream_chunk) (drop next whole) stop
        ]

    checked-input :
        (again : Streaming services → Streaming services × Option GoError) (first size k : ℕ)
        (x : Option GoError) (s : Streaming services)
        → ((s' : Streaming services)
            → (again s').1 ≡ none
            → input (again s').0.world ≡ input s'.world ++ left first size (k + 1))
        → (checked services again first size k x s).1 ≡ none
        → input (checked services again first size k x s).0.world
          ≡ input s.world ++ left first size k
    unfolding checked
    checked-input again first size k (some x) s on e = cc
    checked-input again first size k none s on e =
        let offset = first + k * stream_chunk in
        let r = read_at (to_read size k) offset in
        let chunk_is = honest.reads (to_read size k) offset in
        let w = limit stream_chunk s.world in
        let rest = left first size (k + 1) in
        let all : r.0 ++ rest ≡ left first size k =
          ap (λ (t : Text). t ++ rest) chunk_is ∙ chunk_left first size k in
        chunk_read-input again r.0 rest (read_error r.1) (record s { world = w })
          (λ z. chunk_over first size k (sym (ap length chunk_is) ∙ z))
          (λ s' there f.
            on s' f ∙ ap (λ (t : Text). t ++ rest) there ∙ append_assoc (input w) r.0 rest)
          e
        ∙ ap (λ (t : Text). t ++ (r.0 ++ rest)) (honest.limits stream_chunk s.world)
        ∙ ap (λ (t : Text). input s.world ++ t) all

    send_segment-input :
        (first size k n : ℕ) (s : Streaming services)
        → size ≤ (k + n) * stream_chunk
        → (send_segment services first size k n s).1 ≡ none
        → input (send_segment services first size k n s).0.world
          ≡ input s.world ++ left first size k
    unfolding send_segment
    send_segment-input first size k zero s enough e = sym (
        ap (λ (t : Text). input s.world ++ t)
          (take_none (size - k * stream_chunk) (drop (first + k * stream_chunk) whole)
            (omega arith))
        ∙ append_nil (input s.world))
    send_segment-input first size k (suc n) s enough e =
        checked-input (send_segment services first size (k + 1) n) first size k
          (context_error s.world) s
          (λ (s' : Streaming services) f.
            send_segment-input first size (k + 1) n s' (omega (arith, enough)) f)
          e

    settled-input :
        (r : Streaming services × Option GoError)
        → (settled services r).1 ≡ none
        → (r.1 ≡ none) × (input (settled services r).0.world ≡ input r.0.world)
    unfolding settled
    settled-input (s, some x) e = cc
    settled-input (s, none) e = (refl, honest.waits (close_input s.world) ∙ honest.ends s.world)

    module _ (path : Text) (count i : ℕ) where
      abbrev pub slice : Text
      slice =
          left (start_offset (length whole) count i)
            (end_offset (length whole) count i - start_offset (length whole) count i) 0

      started-input :
          (r : World × Option GoError) (progress : Option TransferProgress)
          → input r.0 ≡ []
          → (started services path (length whole) count i r progress).1 ≡ none
          → input (started services path (length whole) count i r progress).0.world ≡ slice
      unfolding started num_chunks
      started-input (w, some x) progress clean e = cc
      started-input (w, none) progress clean e =
          let first = start_offset (length whole) count i in
          let size = end_offset (length whole) count i - first in
          let s : Streaming services = record { world = w; progress = progress } in
          let r = send_segment services first size 0 (num_chunks size stream_chunk) s in
          let (well, same) = settled-input r e in
          same
          ∙ send_segment-input first size 0 (num_chunks size stream_chunk) s (omega arith) well
          ∙ ap (λ (t : Text). t ++ left first size 0) clean

      connected-input :
          (r : World × Option GoError) (progress : Option TransferProgress)
          → (connected services path (length whole) count i r progress).1 ≡ none
          → input (connected services path (length whole) count i r progress).0.world ≡ slice
      unfolding connected closed
      connected-input (w, some x) progress e = cc
      connected-input (w, none) progress e =
          let script = segment_script path (start_offset (length whole) count i) in
          let r = started services path (length whole) count i (start script w) progress in
          honest.closes r.0.world
          ∙ started-input (start script w) progress (honest.starts script w) e

      created-input :
          (r : World × Option GoError) (progress : Option TransferProgress)
          → (created services path (length whole) count i r progress).1 ≡ none
          → input (created services path (length whole) count i r progress).0.world ≡ slice
      unfolding created
      created-input (w, some x) progress e = cc
      created-input (w, none) progress e =
          connected-input (connect_attempts services 1 3 none w) progress e

      pub worker-input :
          (progress : Option TransferProgress) (w : World)
          → (worker services path (length whole) count i progress w).1 ≡ none
          → input (worker services path (length whole) count i progress w).0.world ≡ slice
      unfolding worker
      worker-input progress w e = created-input (create_worker w) progress e
