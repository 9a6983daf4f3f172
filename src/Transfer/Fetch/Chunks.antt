-- ===== src/Transfer/Fetch/Chunks.antt =====
-- client/filetransfer.go: the chunks that FetchFile gets and writes.
use go_psrp.Common.{
  ℕ, zero, suc, ◌+◌, ◌-◌, ◌*◌, ◌<◌, ◌≤◌, ◌≡◌, refl, sym, ap, subst, ◌∙◌, ◌⊎◌, inl, inr, true, false,
  Option, none, some, [], ◌∷◌, ◌++◌, if◌then◌else◌, length, take, drop, length-take, length-drop,
  take-append-drop, arith,
}
use mathlib.Core.List.{append_assoc}
use native.Mathlib.Nat.{add-mul, suc-mul, le-div_iff_mul-le, lt-div-mul-add}
use go_psrp.Common.Slices.{drop-drop, drop_all, append_nil}
use go_psrp.Common.State.{ok}
use go_psrp.Common.Text.{Text, is_empty, base64, equal_fold}
use go_psrp.Common.Base64.{AllBytes, base64_decode-base64}
use go_psrp.Common.Errors.{GoError}
use go_psrp.Transfer.Options.{FileTransferOptions, num_chunks}
use go_psrp.Transfer.Scripts.{size_script, read_script, fetch_hash_script}
use go_psrp.Transfer.Output.{
  number, string, output_text, NoSpace, base64-NoSpace, trim_space-NoSpace,
}
use go_psrp.Transfer.Fetch.{
  Services, Fetching, written, decoded, answered, chunk_length, chunk_checked, fetch_chunk, fetched,
  fetch_chunks,
}

not_zero : {n : ℕ} → ¬ (suc n ≤ 0)
not_zero l = omega arith

AllBytes-drop : (n : ℕ) (s : Text) → AllBytes s → AllBytes (drop n s)
AllBytes-drop zero s h = h
AllBytes-drop (suc n) [] h = tt
AllBytes-drop (suc n) (c ∷ s) (l, h) = AllBytes-drop n s h

AllBytes-take : (n : ℕ) (s : Text) → AllBytes s → AllBytes (take n s)
AllBytes-take zero s h = tt
AllBytes-take (suc n) [] h = tt
AllBytes-take (suc n) (c ∷ s) (l, h) = (l, AllBytes-take n s h)

-- A nonempty text, in base64.
some_digits : (s : Text) → 0 < length s → is_empty (base64 s) ≡ false
unfolding base64
some_digits [] l = absurd (not_zero l)
some_digits (a ∷ []) l = refl
some_digits (a ∷ b ∷ []) l = refl
some_digits (a ∷ b ∷ c ∷ s) l = refl

module _ (services : Services) where
  open services use {World, execute, context_error, create, write, close, sha256_hex, clean}

  -- A host that has the file `whole` and answers the scripts about it, and a local disk without
  -- failures; `file` is the local file. The hash that it answers with may differ in its case.
  pub record Honest (path whole : Text) (file : World → Text) : Type 0 where
    pub executes : (script : Text) (w : World) → file (execute script w).0 ≡ file w
    pub sizes : (w : World) → (execute (size_script path) w).1 ≡ ok (some (number (length whole)))
    pub sends :
        (offset size : ℕ) (w : World)
        → offset + size ≤ length whole
        → (execute (read_script path offset size) w).1
          ≡ ok (some (string (base64 (take size (drop offset whole)))))
    pub hash : Text
    pub hash_plain : NoSpace hash
    pub hash_same : equal_fold hash (sha256_hex whole) ≡ true
    pub hashes : (w : World) → (execute (fetch_hash_script path) w).1 ≡ ok (some (string hash))
    pub lasts : (w : World) → context_error w ≡ none
    pub creates : (local : Text) (w : World) → (create local w).1 ≡ none
    pub creates_empty : (local : Text) (w : World) → file (create local w).0 ≡ []
    pub writes : (chunk : Text) (w : World) → (write chunk w).1 ≡ none
    pub writes_chunk : (chunk : Text) (w : World) → file (write chunk w).0 ≡ file w ++ chunk
    pub closes : (w : World) → (close w).1 ≡ none
    pub closes_file : (w : World) → file (close w).0 ≡ file w

  module _ (opt : FileTransferOptions) (path whole : Text) (file : World → Text)
      (honest : Honest path whole file) (bytes : AllBytes whole)
      (positive : 0 < opt.chunk_size) where
    -- Before the i-th chunk.
    pub record Has (i : ℕ) (f : Fetching services) : Type 0 where
      pub has_file : file f.world ++ drop (i * opt.chunk_size) whole ≡ whole
      pub has_hash : opt.verify_checksum ≡ true → f.hashed ≡ file f.world

    written-Has :
        (i : ℕ) (chunk : Text) (f : Fetching services) (r : World × Option GoError)
        → r.1 ≡ none
        → file r.0 ≡ file f.world ++ chunk
        → chunk ++ drop ((i + 1) * opt.chunk_size) whole ≡ drop (i * opt.chunk_size) whole
        → Has i f
        → let r' = written services opt path chunk r f in (r'.1 ≡ none) × Has (i + 1) r'.0
    unfolding written
    written-Has i chunk f (w, some e) well add split h = cc
    written-Has i chunk f (w, none) well add split h = (
      refl,
      record {
        has_file =
            ap (λ (s : Text). s ++ drop ((i + 1) * opt.chunk_size) whole) add
            ∙ append_assoc (file f.world) chunk (drop ((i + 1) * opt.chunk_size) whole)
            ∙ ap (λ (s : Text). file f.world ++ s) split
            ∙ h.has_file;
        has_hash = λ (v : opt.verify_checksum ≡ true).
            ap (λ b. if b then f.hashed ++ chunk else f.hashed) v
            ∙ ap (λ (s : Text). s ++ chunk) (h.has_hash v)
            ∙ sym add;
      },
    )

    answered-Has :
        (i : ℕ) (chunk : Text) (f : Fetching services)
        → AllBytes chunk
        → 0 < length chunk
        → chunk ++ drop ((i + 1) * opt.chunk_size) whole ≡ drop (i * opt.chunk_size) whole
        → Has i f
        → let r = answered services opt path (ok (some (string (base64 chunk)))) f in
          (r.1 ≡ none) × Has (i + 1) r.0
    unfolding answered decoded output_text
    answered-Has i chunk f all l split h =
        let plain = trim_space-NoSpace (base64 chunk) (base64-NoSpace chunk) in
        let more = some_digits chunk l in
        let back = base64_decode-base64 chunk all in
        let next =
          written-Has i chunk f (write chunk f.world) (honest.writes chunk f.world)
            (honest.writes_chunk chunk f.world) split h in
        grind (arith, plain, more, back, next)

    Has-world :
        {i : ℕ} {f : Fetching services} (w : World)
        → file w ≡ file f.world
        → Has i f
        → Has i (record f { world = w })
    Has-world {i} w same h = record {
      has_file = ap (λ (s : Text). s ++ drop (i * opt.chunk_size) whole) same ∙ h.has_file;
      has_hash = λ (v : opt.verify_checksum ≡ true). h.has_hash v ∙ sym same;
    }

    chunk_length_fits :
        (offset total : ℕ)
        → offset < total
        → let size = chunk_length services opt path total offset in
          (0 < size)
          × (offset + size ≤ total)
          × ((size ≡ opt.chunk_size) ⊎ (total ≤ offset + size) × (total ≤ offset + opt.chunk_size))
    unfolding chunk_length
    chunk_length_fits offset total l = ground (arith, positive)

    -- A chunk and what is behind it are what is from the chunk's offset on.
    chunk_split :
        (i : ℕ)
        → i * opt.chunk_size < length whole
        → let offset = i * opt.chunk_size in
          let size = chunk_length services opt path (length whole) offset in
          take size (drop offset whole) ++ drop ((i + 1) * opt.chunk_size) whole ≡ drop offset whole
    chunk_split i l =
        let offset = i * opt.chunk_size in
        let size = chunk_length services opt path (length whole) offset in
        let next = add-mul i 1 opt.chunk_size in
        let (_, _, at) = chunk_length_fits offset (length whole) l in
        let behind : drop ((i + 1) * opt.chunk_size) whole ≡ drop (offset + size) whole = elim at [
          | inl same ↦ ap (λ k. drop k whole) (omega (arith, same, next))
          | inr (m, n) ↦
              drop_all ((i + 1) * opt.chunk_size) whole (omega (arith, n, next))
              ∙ sym (drop_all (offset + size) whole m)
        ] in
        ap (λ (s : Text). take size (drop offset whole) ++ s)
          (behind ∙ sym (drop-drop size offset whole))
        ∙ take-append-drop size (drop offset whole)

    fetch_chunk-Has :
        (i : ℕ) (f : Fetching services)
        → i * opt.chunk_size < length whole
        → Has i f
        → let r = fetch_chunk services opt path (length whole) i f in (r.1 ≡ none) × Has (i + 1) r.0
    unfolding fetch_chunk chunk_checked
    fetch_chunk-Has i f l h =
        let offset = i * opt.chunk_size in
        let size = chunk_length services opt path (length whole) offset in
        let script = read_script path offset size in
        let (some_bytes, within, _) = chunk_length_fits offset (length whole) l in
        let chunk = take size (drop offset whole) in
        let long : 0 < length chunk =
          omega (
            arith,
            length-take size (drop offset whole),
            length-drop offset whole,
            some_bytes,
            l,
          ) in
        let next =
          answered-Has i chunk (record f { world = (execute script f.world).0 })
            (AllBytes-take size (drop offset whole) (AllBytes-drop offset whole bytes)) long
            (chunk_split i l)
            (Has-world (execute script f.world).0 (honest.executes script f.world) h) in
        grind (arith, honest.lasts f.world, honest.sends offset size f.world within, next)

    fetched_next :
        (again : Fetching services → Fetching services × Option GoError)
        (r : Fetching services × Option GoError)
        → r.1 ≡ none
        → fetched services opt path again r ≡ again r.0
    unfolding fetched
    fetched_next again (f, none) e = refl
    fetched_next again (f, some x) e = cc

    chunk_within :
        (i : ℕ) → i < num_chunks (length whole) opt.chunk_size → i * opt.chunk_size < length whole
    unfolding num_chunks
    chunk_within i l =
        let up =
          (le-div_iff_mul-le {k = opt.chunk_size} {x = suc i}
              {y = length whole + opt.chunk_size - 1} positive).0
            l in
        omega (arith, up, suc-mul i opt.chunk_size, positive)

    pub fetch_chunks-Has :
        (i n : ℕ) (f : Fetching services)
        → i + n ≡ num_chunks (length whole) opt.chunk_size
        → Has i f
        → let r = fetch_chunks services opt path (length whole) i n f in
          (r.1 ≡ none) × Has (i + n) r.0
    unfolding fetch_chunks
    fetch_chunks-Has i zero f e h = (refl, subst (λ k. Has k f) (omega arith) h)
    fetch_chunks-Has i (suc n) f e h =
        let r = fetch_chunk services opt path (length whole) i f in
        let (well, has) = fetch_chunk-Has i f (chunk_within i (omega (arith, e))) h in
        let again = fetch_chunks services opt path (length whole) (i + 1) n in
        let next = fetch_chunks-Has (i + 1) n r.0 (omega (arith, e)) has in
        let same = fetched_next again r well in
        let shift : i + 1 + n ≡ i + suc n = omega arith in
        (
          ap (λ (x : Fetching services × Option GoError). x.1) same ∙ next.0,
          subst (λ (x : Fetching services × Option GoError). Has (i + suc n) x.0) (sym same)
              (subst (λ k. Has k (again r.0).0) shift next.1),
        )

    -- Behind the last chunk.
    pub all_read :
        (f : Fetching services)
        → Has (num_chunks (length whole) opt.chunk_size) f
        → file f.world ≡ whole
    unfolding num_chunks
    all_read f h =
        let chunks = num_chunks (length whole) opt.chunk_size in
        let above : length whole + opt.chunk_size - 1 < chunks * opt.chunk_size + opt.chunk_size =
          lt-div-mul-add positive in
        let behind = drop_all (chunks * opt.chunk_size) whole (omega (arith, above, positive)) in
        sym (ap (λ (s : Text). file f.world ++ s) behind ∙ append_nil (file f.world)) ∙ h.has_file
