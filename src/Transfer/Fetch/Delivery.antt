-- ===== src/Transfer/Fetch/Delivery.antt =====
-- client/filetransfer.go: what FetchFile makes of the chunks that the remote side sends.
use go_psrp.Common.{
  ◌+◌, ◌*◌, ◌<◌, ◌≡◌, refl, sym, ap, subst, ◌∙◌, inl, inr, true, false, Option, none, some, [],
  ◌++◌, ◌==◌, length, drop, Bool-cases, arith,
}
use go_psrp.Common.Slices.{drop_all}
use go_psrp.Common.State.{Result, ok, err}
use go_psrp.Common.Text.{Text}
use go_psrp.Common.Base64.{AllBytes}
use go_psrp.Common.Errors.{GoError}
use go_psrp.Transfer.Options.{FileTransferOptions, too_large, num_chunks}
use go_psrp.Transfer.Progress.{new_progress}
use go_psrp.Transfer.Scripts.{validate_paths, size_script, fetch_hash_script}
use go_psrp.Transfer.Output.{Value, number, string, output_text, trim_space-NoSpace}
use go_psrp.Transfer.Fetch.{
  Services, Fetching, parse_size, fetch_chunks, hash_answered, verify, closed, created, sized,
  empty_closed, empty_created, size_answered, paths_checked, fetch,
}
use go_psrp.Transfer.Fetch.Chunks.{Honest, Has, fetch_chunks-Has, all_read}

module _ (services : Services) where
  open services use {World, execute, context_error, create, write, close, sha256_hex, clean}

  module _ (opt : FileTransferOptions) (path whole : Text) (file : World → Text)
      (honest : Honest services path whole file) (bytes : AllBytes whole)
      (positive : 0 < opt.chunk_size) where
    hash_answered_good :
        (hashed : Text) (r : World × Result GoError (Option Value))
        → hashed ≡ whole
        → r.1 ≡ ok (some (string honest.hash))
        → file r.0 ≡ whole
        → let r' = hash_answered services opt path (sha256_hex hashed) r in
          (r'.1 ≡ none) × (file r'.0 ≡ whole)
    unfolding hash_answered output_text
    hash_answered_good hashed (w, err e) same answer here = cc
    hash_answered_good hashed (w, ok v) same answer here = grind (
      arith,
      answer,
      same,
      trim_space-NoSpace honest.hash honest.hash_plain,
      honest.hash_same,
      here,
    )

    verify_good :
        (r : Fetching services × Option GoError)
        → r.1 ≡ none
        → file r.0.world ≡ whole
        → (opt.verify_checksum ≡ true → r.0.hashed ≡ file r.0.world)
        → let r' = verify services opt path r in (r'.1 ≡ none) × (file r'.0 ≡ whole)
    unfolding verify
    verify_good (f, some e) well here hash = cc
    verify_good (f, none) well here hash = elim (Bool-cases opt.verify_checksum) [
      | inl v ↦
          let good =
            hash_answered_good f.hashed (execute (fetch_hash_script path) f.world) (hash v ∙ here)
              (honest.hashes f.world) (honest.executes (fetch_hash_script path) f.world ∙ here) in
          grind (arith, v, good)
      | inr v ↦ grind (arith, v, here)
    ]

    closed_good :
        (r : World × Option GoError)
        → (r.1 ≡ none) × (file r.0 ≡ whole)
        → let r' = closed services opt path r in (r'.1 ≡ none) × (file r'.0 ≡ whole)
    unfolding closed
    closed_good (w, e) (well, here) = (well, honest.closes_file w ∙ here)

    created_good :
        (r : World × Option GoError)
        → r.1 ≡ none
        → file r.0 ≡ []
        → let r' = created services opt path (length whole) r in (r'.1 ≡ none) × (file r'.0 ≡ whole)
    unfolding created closed
    created_good (w, some e) well clean = cc
    created_good (w, none) well clean =
        let start : Fetching services = record {
          world = w;
          hashed = [];
          progress = new_progress opt.progress_callback (length whole);
        } in
        let zero_times : 0 * opt.chunk_size ≡ 0 = omega arith in
        let has : Has services opt path whole file honest bytes positive 0 start = record {
          has_file =
              ap (λ (s : Text). s ++ drop (0 * opt.chunk_size) whole) clean
              ∙ ap (λ k. drop k whole) zero_times;
          has_hash = λ (v : opt.verify_checksum ≡ true). sym clean;
        } in
        let chunks = num_chunks (length whole) opt.chunk_size in
        let r = fetch_chunks services opt path (length whole) 0 chunks start in
        let (done, after) =
          fetch_chunks-Has services opt path whole file honest bytes positive 0 chunks start
            (omega arith) has in
        let count : 0 + chunks ≡ chunks = omega arith in
        let here =
          all_read services opt path whole file honest bytes positive r.0 (
            subst (λ k. Has services opt path whole file honest bytes positive k r.0) count
              after) in
        closed_good (verify services opt path r) (verify_good r done here after.has_hash)

    empty_closed_good :
        (r : World × Option GoError) → r.1 ≡ none → empty_closed services opt path r ≡ r
    unfolding empty_closed
    empty_closed_good (w, none) well = refl
    empty_closed_good (w, some e) well = cc

    empty_created_good :
        (r : World × Option GoError)
        → r.1 ≡ none
        → file r.0 ≡ []
        → length whole ≡ 0
        → let r' = empty_created services opt path r in (r'.1 ≡ none) × (file r'.0 ≡ whole)
    unfolding empty_created
    empty_created_good (w, some e) well clean z = cc
    empty_created_good (w, none) well clean z =
        let same = empty_closed_good (close w) (honest.closes w) in
        let nothing : whole ≡ [] = drop_all 0 whole (omega (arith, z)) in
        grind (arith, same, honest.closes w, honest.closes_file w, clean, nothing)

    size_answered_good :
        (local : Text) (r : World × Result GoError (Option Value))
        → too_large opt (length whole) ≡ false
        → r.1 ≡ ok (some (number (length whole)))
        → let r' = size_answered services opt path local r in (r'.1 ≡ none) × (file r'.0 ≡ whole)
    unfolding size_answered sized parse_size
    size_answered_good local (w, err e) small answer = cc
    size_answered_good local (w, ok v) small answer =
        let number_read : parse_size services v ≡ ok (length whole) = grind (arith, answer) in
        let empty =
          empty_created_good (create local w) (honest.creates local w)
            (honest.creates_empty local w) in
        let filled =
          created_good (create local w) (honest.creates local w) (honest.creates_empty local w) in
        elim (Bool-cases (length whole == 0)) [
          | inl z ↦ let good = empty (ground (arith, z)) in grind (arith, number_read, z, good)
          | inr z ↦ grind (arith, number_read, z, small, filled)
        ]

    -- From a host that has the file and answers every script, with valid paths, a positive chunk size,
    -- a size within the limit and a local disk without failures, FetchFile succeeds and the local
    -- file holds exactly the remote file's bytes, for an empty file and with VerifyChecksum too.
    pub fetch_delivers :
        (local : Text) (w : World)
        → validate_paths clean local path ≡ none
        → too_large opt (length whole) ≡ false
        → let r = fetch services opt path local w in (r.1 ≡ none) × (file r.0 ≡ whole)
    unfolding fetch paths_checked
    fetch_delivers local w valid small =
        let good = size_answered_good local (execute (size_script path) w) small (honest.sizes w) in
        grind (arith, valid, good)
