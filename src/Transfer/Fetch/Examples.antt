-- ===== src/Transfer/Fetch/Examples.antt =====
-- client/filetransfer.go: FetchFile of a file of two bytes.
use go_psrp.Common.{
  ℕ, zero, suc, ◌+◌, ◌≤◌, ◌≡◌, refl, Option, none, some, List, [], ◌∷◌, ◌++◌, if◌then◌else◌, take,
  drop, arith,
}
use go_psrp.Common.State.{Result, ok, err}
use go_psrp.Common.Text.{Text, codes, text_eq, base64, decimal}
use go_psrp.Common.Errors.{GoError, message}
use go_psrp.Transfer.Options.{too_large}
use go_psrp.Transfer.Scripts.{size_script, read_script, fetch_hash_script, validate_paths}
use go_psrp.Transfer.Output.{Value, number, string}
use go_psrp.Transfer.Cases.{path, hi, options}
use go_psrp.Transfer.Fetch.{Services, fetch}
use go_psrp.Transfer.Fetch.Chunks.{Honest}
use go_psrp.Transfer.Fetch.Delivery.{fetch_delivers}

-- A host that knows the answers to these scripts.
abbrev answer : List (Text × Value) → Text → Result GoError (Option Value)
answer [] script = err (message (codes "unknown script"))
answer ((known, v) ∷ more) script =
    let rest = answer more script in if text_eq known script then ok (some v) else rest

abbrev chunk_answer : ℕ → ℕ → Text × Value
chunk_answer offset size =
    (read_script path offset size, string (base64 (take size (drop offset hi))))

abbrev answers : List (Text × Value)
answers =
    (size_script path, number 2)
    ∷ (fetch_hash_script path, string (codes "C0FFEE"))
    ∷ chunk_answer 0 0
    ∷ chunk_answer 0 1
    ∷ chunk_answer 0 2
    ∷ chunk_answer 1 0
    ∷ chunk_answer 1 1
    ∷ chunk_answer 2 0
    ∷ []

-- The world is the local file, and the hash of each file is the same.
abbrev fetching : Services
fetching = record {
  World = Text;
  execute = λ script w. (w, answer answers script);
  context_error = λ w. none;
  create = λ local w. ([], none);
  write = λ chunk w. (w ++ chunk, none);
  close = λ w. (w, none);
  scan_int = λ s. ok 0;
  shown = λ v. [];
  sha256_hex = λ s. codes "c0ffee";
  clean = λ s. s;
  text = λ s. [];
}

far : (i n : ℕ) → ¬ (suc (suc (suc i)) + n ≤ 2)
far i n l = omega arith

chunk_answered :
    (offset size : ℕ)
    → offset + size ≤ 2
    → answer answers (read_script path offset size)
      ≡ ok (some (string (base64 (take size (drop offset hi)))))
unfolding size_script fetch_hash_script read_script base64 decimal
chunk_answered zero zero l = refl
chunk_answered zero (suc zero) l = refl
chunk_answered zero (suc (suc zero)) l = refl
chunk_answered zero (suc (suc (suc size))) l = absurd (far size 0 (omega (arith, l)))
chunk_answered (suc zero) zero l = refl
chunk_answered (suc zero) (suc zero) l = refl
chunk_answered (suc zero) (suc (suc size)) l = absurd (far size 0 (omega (arith, l)))
chunk_answered (suc (suc zero)) zero l = refl
chunk_answered (suc (suc zero)) (suc size) l = absurd (far size 0 (omega (arith, l)))
chunk_answered (suc (suc (suc offset))) size l = absurd (far offset size l)

fetching-Honest : Honest fetching path hi (λ w. w)
unfolding size_script fetch_hash_script read_script base64 decimal
fetching-Honest = record {
  executes = λ script w. refl;
  sizes = λ w. refl;
  sends = λ offset size w l. chunk_answered offset size l;
  hash = codes "C0FFEE";
  hash_plain = omega arith;
  hash_same = refl;
  hashes = λ w. refl;
  lasts = λ w. refl;
  creates = λ local w. refl;
  creates_empty = λ local w. refl;
  writes = λ chunk w. refl;
  writes_chunk = λ chunk w. refl;
  closes = λ w. refl;
  closes_file = λ w. refl;
}

fetch_delivers_example :
    let r = fetch fetching options path (codes "x") (codes "old") in (r.1 ≡ none) × (r.0 ≡ hi)
unfolding validate_paths too_large
fetch_delivers_example =
    fetch_delivers fetching options path hi (λ w. w) fetching-Honest (omega arith) (omega arith)
      (codes "x") (codes "old") refl refl
