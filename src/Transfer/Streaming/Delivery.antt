-- ===== src/Transfer/Streaming/Delivery.antt =====
-- client/filetransfer.go: what the pipeline of copyFileStreaming has been given when it succeeds.
use go_psrp.Common.{
  ℕ, zero, suc, ◌+◌, ◌-◌, ◌*◌, ◌<◌, ◌≤◌, ◌≡◌, refl, sym, ap, ◌∙◌, Option, none, some, [], ◌∷◌, ◌++◌,
  if◌then◌else◌, ◌==◌, is_some, length, take, drop, length-take, length-drop, take-append-drop,
  Bool-cases, inl, inr, arith,
}
use mathlib.Core.List.{append_assoc}
use native.Mathlib.Nat.{suc-mul, lt-div-mul-add}
use go_psrp.Common.Slices.{drop_all, append_nil}
use go_psrp.Common.State.{Result, ok, err}
use go_psrp.Common.Text.{Text}
use go_psrp.Common.Errors.{GoError}
use go_psrp.Transfer.Options.{FileTransferOptions, num_chunks}
use go_psrp.Transfer.Progress.{TransferProgress, update}
use go_psrp.Transfer.Scripts.{streaming_script, streaming_hash_script}
use go_psrp.Transfer.Output.{Value}
use go_psrp.Transfer.Upload.{read_error}
use go_psrp.Transfer.Streaming.{
  Services, Sending, sent, chunk_read, checked, send_chunks, finish_sending, waited, hash_answered,
  conclude, settled, started, wait_timeout, copy_file_streaming,
}

not_zero : {n : ℕ} → ¬ (suc n ≡ 0)
not_zero e = omega arith

module _ (services : Services) where
  open services use {World, start, send_input, close_input, cancel, wait, execute, read}

  -- `input` is what the pipeline has been given, and `rest` what is left to read of the file: Read
  -- fills the buffer as far as the file goes, and SendInput hands the bytes on.
  pub record Honest (input rest : World → Text) : Type 0 where
    pub reads : (n : ℕ) (w : World) → (read n w).1 ≡ take n (rest w)
    pub reads_rest : (n : ℕ) (w : World) → rest (read n w).0 ≡ drop n (rest w)
    pub reads_input : (n : ℕ) (w : World) → input (read n w).0 ≡ input w
    pub sends :
        (chunk : Text) (w : World)
        → (send_input chunk w).1 ≡ none
        → input (send_input chunk w).0 ≡ input w ++ chunk
    pub sends_rest : (chunk : Text) (w : World) → rest (send_input chunk w).0 ≡ rest w
    pub starts : (script : Text) (w : World) → input (start script w).0 ≡ []
    pub starts_rest : (script : Text) (w : World) → rest (start script w).0 ≡ rest w
    pub closes : (w : World) → input (close_input w) ≡ input w
    pub cancels : (w : World) → input (cancel w) ≡ input w
    pub waits : (limit : ℕ) (w : World) → input (wait limit w).0 ≡ input w
    pub executes : (script : Text) (w : World) → input (execute script w).0 ≡ input w

  module _ (opt : FileTransferOptions) (path whole : Text) (input rest : World → Text)
      (honest : Honest input rest) (positive : 0 < opt.chunk_size) where
    -- Sending on, with so many bytes left at most, gives the pipeline the whole file if no error is
    -- returned.
    Delivers : ℕ → (Sending services → Sending services × Option GoError) → Type 0
    Delivers left again =
        (s : Sending services)
        → length (rest s.world) ≤ left
        → input s.world ++ rest s.world ≡ whole
        → (again s).1 ≡ none
        → input (again s).0.world ≡ whole

    sent-Delivers :
        (left : ℕ) (again : Sending services → Sending services × Option GoError) (chunk : Text)
        (r : World × Option GoError) (s : Sending services)
        → Delivers left again
        → (r.1 ≡ none → input r.0 ≡ input s.world ++ chunk)
        → rest r.0 ≡ rest s.world
        → length (rest s.world) ≤ left
        → input s.world ++ (chunk ++ rest s.world) ≡ whole
        → (sent services opt path again chunk r s).1 ≡ none
        → input (sent services opt path again chunk r s).0.world ≡ whole
    unfolding Delivers sent
    sent-Delivers left again chunk (w, some x) s on sends same few split e = cc
    sent-Delivers left again chunk (w, none) s on sends same few split e =
        on (record s { world = w; progress = update (length chunk) s.progress })
          (omega (arith, ap length same, few))
          (ap (λ (t : Text). t ++ rest w) (sends refl)
            ∙ append_assoc (input s.world) chunk (rest w)
            ∙ ap (λ (t : Text). input s.world ++ (chunk ++ t)) same
            ∙ split)
          e

    no_bytes : (xs ys zs : Text) → length ys ≡ 0 → zs ≡ [] → xs ++ (ys ++ zs) ≡ whole → xs ≡ whole
    no_bytes xs [] zs z e split = sym (ap (λ (t : Text). xs ++ t) e ∙ append_nil xs) ∙ split
    no_bytes xs (y ∷ ys) zs z e split = absurd (not_zero z)

    chunk_read-Delivers :
        (left : ℕ) (again : Sending services → Sending services × Option GoError) (chunk : Text)
        (e : Option GoError) (s : Sending services)
        → Delivers left again
        → length (rest s.world) ≤ left
        → (length chunk ≡ 0 → rest s.world ≡ [])
        → input s.world ++ (chunk ++ rest s.world) ≡ whole
        → (chunk_read services opt path again chunk e s).1 ≡ none
        → input (chunk_read services opt path again chunk e s).0.world ≡ whole
    unfolding chunk_read
    chunk_read-Delivers left again chunk (some x) s on few over split e = cc
    chunk_read-Delivers left again chunk none s on few over split e =
        let hashed = if opt.verify_checksum then s.hashed ++ chunk else s.hashed in
        let next =
          sent-Delivers left again chunk (send_input chunk s.world) (record s { hashed = hashed })
            on (honest.sends chunk s.world) (honest.sends_rest chunk s.world) few split in
        elim (Bool-cases (length chunk == 0)) [
          | inl z ↦
              let nothing : length chunk ≡ 0 = ground (arith, z) in
              let same =
                no_bytes (input s.world) chunk (rest s.world) nothing (over nothing) split in
              grind (arith, z, same)
          | inr z ↦ grind (arith, z, e, next)
        ]

    checked-Delivers :
        (left : ℕ) (again : Sending services → Sending services × Option GoError)
        (x : Option GoError) (s : Sending services)
        → Delivers left again
        → length (rest s.world) ≤ opt.chunk_size + left
        → input s.world ++ rest s.world ≡ whole
        → (checked services opt path again x s).1 ≡ none
        → input (checked services opt path again x s).0.world ≡ whole
    unfolding checked
    checked-Delivers left again (some x) s on few split e = cc
    checked-Delivers left again none s on few split e =
        let r = read opt.chunk_size s.world in
        let chunk_is = honest.reads opt.chunk_size s.world in
        let rest_is = honest.reads_rest opt.chunk_size s.world in
        let size = ap length chunk_is ∙ length-take opt.chunk_size (rest s.world) in
        let size' = ap length rest_is ∙ length-drop opt.chunk_size (rest s.world) in
        chunk_read-Delivers left again r.1 (read_error r.2) (record s { world = r.0 }) on
          (omega (arith, size', few))
          (λ z. rest_is ∙ drop_all opt.chunk_size (rest s.world) (omega (arith, size, z, positive)))
          (ap (λ (t : Text). t ++ (r.1 ++ rest r.0)) (honest.reads_input opt.chunk_size s.world)
            ∙ ap (λ (t : Text). input s.world ++ (t ++ rest r.0)) chunk_is
            ∙ ap (λ (t : Text). input s.world ++ (take opt.chunk_size (rest s.world) ++ t)) rest_is
            ∙ ap (λ (t : Text). input s.world ++ t) (take-append-drop opt.chunk_size (rest s.world))
            ∙ split)
          e

    send_chunks-Delivers : (n : ℕ) → Delivers (n * opt.chunk_size) (send_chunks services opt path n)
    unfolding Delivers send_chunks
    send_chunks-Delivers zero s few split e =
        no_bytes (input s.world) [] (rest s.world) refl (drop_all 0 (rest s.world) (omega arith))
          split
    send_chunks-Delivers (suc n) s few split e =
        checked-Delivers (n * opt.chunk_size) (send_chunks services opt path n)
          (services.context_error s.world) s (send_chunks-Delivers n)
          (omega (arith, few, suc-mul n opt.chunk_size)) split e

    finish_sending-input :
        (total : ℕ) (r : Sending services × Option GoError)
        → let r' = finish_sending services opt path total r in
          (r'.1 ≡ r.1) × (input r'.0.world ≡ input r.0.world)
    unfolding finish_sending
    finish_sending-input total (s, none) = (refl, honest.closes s.world)
    finish_sending-input total (s, some e) = (refl, honest.closes s.world)

    waited-input :
        (r : World × Option (Option GoError)) → input (waited services opt path r).0 ≡ input r.0
    unfolding waited
    waited-input (w, some e) = refl
    waited-input (w, none) = honest.cancels w

    hash_answered-input :
        (hash : Text) (r : World × Result GoError (Option Value))
        → input (hash_answered services opt path hash r).0 ≡ input r.0
    unfolding hash_answered
    hash_answered-input hash (w, err e) = refl
    hash_answered-input hash (w, ok v) = ground arith

    -- Without an error, the sending has had none, and the verification sends nothing more.
    conclude-input :
        (hashed : Text) (e : Option GoError) (r : World × Option GoError)
        → (conclude services opt path hashed e r).1 ≡ none
        → (e ≡ none) × (input (conclude services opt path hashed e r).0 ≡ input r.0)
    unfolding conclude
    conclude-input hashed none (w, some x) h = cc
    conclude-input hashed none (w, none) h =
        let script = streaming_hash_script path in
        let answer = execute script w in
        let quiet =
          hash_answered-input (services.sha256_hex hashed) answer ∙ honest.executes script w in
        (refl, ground (arith, quiet))
    conclude-input hashed (some x) (w, none) h = cc
    conclude-input hashed (some x) (w, some y) h = ground (arith, h)

    settled-input :
        (chunks : ℕ) (r : Sending services × Option GoError)
        → (settled services opt path chunks r).1 ≡ none
        → (r.1 ≡ none) × (input (settled services opt path chunks r).0.world ≡ input r.0.world)
    unfolding settled
    settled-input chunks (s, e) h =
        let limit = wait_timeout chunks opt.chunk_timeout in
        let w = if is_some e then cancel s.world else s.world in
        let there : input w ≡ input s.world = ground (arith, honest.cancels s.world) in
        let (well, same) = conclude-input s.hashed e (waited services opt path (wait limit w)) h in
        (well, same ∙ waited-input (wait limit w) ∙ honest.waits limit w ∙ there)

    started-delivers :
        (progress : Option TransferProgress) (r : World × Option GoError)
        → input r.0 ≡ []
        → rest r.0 ≡ whole
        → (started services opt path (length whole) progress r).1 ≡ none
        → input (started services opt path (length whole) progress r).0.world ≡ whole
    unfolding Delivers started num_chunks
    started-delivers progress (w, some x) clean all e = cc
    started-delivers progress (w, none) clean all e =
        let chunks = num_chunks (length whole) opt.chunk_size in
        let s : Sending services = record { world = w; hashed = []; progress = progress } in
        let r = send_chunks services opt path chunks s in
        let (well, same) =
          settled-input chunks (finish_sending services opt path (length whole) r) e in
        let (kept, same') = finish_sending-input (length whole) r in
        let above : length whole + opt.chunk_size - 1 < chunks * opt.chunk_size + opt.chunk_size =
          lt-div-mul-add positive in
        same
        ∙ same'
        ∙ send_chunks-Delivers chunks s (omega (arith, ap length all, above, positive))
            (ap (λ (t : Text). t ++ rest w) clean ∙ all) (sym kept ∙ well)

    -- If copyFileStreaming returns no error, its pipeline has been given exactly the bytes of the file
    -- in order, where Read fills its buffer as far as the file goes and the chunk size is positive.
    pub copy_file_streaming-delivers :
        (progress : Option TransferProgress) (w : World)
        → rest w ≡ whole
        → (copy_file_streaming services opt path (length whole) progress w).1 ≡ none
        → input (copy_file_streaming services opt path (length whole) progress w).0.world ≡ whole
    unfolding copy_file_streaming
    copy_file_streaming-delivers progress w all e =
        let script = streaming_script path opt.no_overwrite (length whole) in
        started-delivers progress (start script w) (honest.starts script w)
          (honest.starts_rest script w ∙ all) e
