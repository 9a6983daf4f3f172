-- ===== src/Transfer/Upload/Writing.antt =====
-- client/filetransfer.go: what a step of a worker of copyFileParallel does to the remote file.
use go_psrp.Common.{
  ℕ, ◌+◌, ◌*◌, ◌/◌, ◌<◌, ◌≤◌, ◌≡◌, refl, sym, ap, subst, ◌∙◌, ◌⊎◌, inl, inr, Bool, true, false,
  ◌&&◌, ◌||◌, not, Option, none, some, List, [], ◌∷◌, if◌then◌else◌, ◌==◌, ltb, is_some, length,
  take, drop, length-take, length-drop, get_elem?, arith,
}
use go_psrp.Common.Slices.{write_at, length-write_at, get_elem?-write_at_out, write_at-agrees}
use go_psrp.Common.Text.{Text, codes, base64}
use go_psrp.Common.Errors.{GoError, message, wrap}
use go_psrp.Transfer.Options.{FileTransferOptions}
use go_psrp.Transfer.Scripts.{generate_offset_write_script, generate_preallocate_script}
use go_psrp.Transfer.Upload.{
  Services, Phase, starting, acquired, ready, holding, finished, Shared, read_error,
  chunk_timeout_of, group_error, leave, leave_connected, connected, created, selected, take_slot,
  take_job, uploaded, send_chunk, chunk_read, job_checked, upload_chunk, advance,
}
use go_psrp.Transfer.Upload.Pending.{
  queued, holds, ended, chunk_position, before_end, first_error-some,
}

module _ (services : Services) where
  open services use {
    World, execute, worker_execute, create_worker, connect_worker, close_worker, read_at,
  }

  -- The file to send is `whole`; the remote file is a part of the world. Pre-allocation gives it the
  -- size, the script of a chunk writes the chunk at its offset, ReadAt reads what is there, and
  -- connections leave the file alone.
  pub record Honest (opt : FileTransferOptions) (path whole : Text) (content : World → Text)
      : Type 0 where
    pub reads :
        (i : ℕ)
        → (read_at opt.chunk_size (i * opt.chunk_size)).0
          ≡ take opt.chunk_size (drop (i * opt.chunk_size) whole)
    pub writes :
        (i : ℕ) (w : World)
        → i * opt.chunk_size < length whole
        → let chunk = take opt.chunk_size (drop (i * opt.chunk_size) whole) in
          let script = generate_offset_write_script path (i * opt.chunk_size) (base64 chunk) in
          let r = worker_execute (chunk_timeout_of opt) script w in
          r.1 ≡ none → content r.0 ≡ write_at (i * opt.chunk_size) chunk (content w)
    pub allocates :
        (w : World)
        → let r = execute (generate_preallocate_script path (length whole)) w in
          r.1 ≡ none → length (content r.0) ≡ length whole
    pub creates : (w : World) → content (create_worker w).0 ≡ content w
    pub connects : (w : World) → content (connect_worker w).0 ≡ content w
    pub closes : (w : World) → content (close_worker w) ≡ content w

  module _ (opt : FileTransferOptions) (path whole : Text) (content : World → Text)
      (honest : Honest opt path whole content) (positive : 0 < opt.chunk_size) where
    -- The remote file has its size, and the bytes of each job that is no longer pending.
    pub record Sent (pending : ℕ → ℕ) (w : World) : Type 0 where
      pub sized : length (content w) ≡ length whole
      pub sent :
          (j : ℕ)
          → j < length whole
          → pending (j / opt.chunk_size) ≡ 0
          → get_elem? (content w) j ≡ get_elem? whole j

    pub Sent-moves :
        {pending pending' : ℕ → ℕ} {w w' : World}
        → content w' ≡ content w
        → ((k : ℕ) → pending k ≡ pending' k)
        → Sent pending w
        → Sent pending' w'
    Sent-moves e same s = record {
      sized = ap length e ∙ s.sized;
      sent = λ (j : ℕ) (l : j < length whole) z.
          ap (λ (xs : Text). get_elem? xs j) e ∙ s.sent j l (same (j / opt.chunk_size) ∙ z);
    }

    -- A chunk is written, and its job is no longer held.
    Sent-write :
        (i : ℕ) {pending pending' : ℕ → ℕ} {w w' : World}
        → i * opt.chunk_size < length whole
        → content w'
          ≡ write_at
              (i * opt.chunk_size)
              (take opt.chunk_size (drop (i * opt.chunk_size) whole))
              (content w)
        → ((k : ℕ) → pending k ≡ (if k == i then 1 else 0) + pending' k)
        → Sent pending w
        → Sent pending' w'
    Sent-write i {pending} {pending'} {w} {w'} within e released s =
        let chunk = take opt.chunk_size (drop (i * opt.chunk_size) whole) in
        let size = length-take opt.chunk_size (drop (i * opt.chunk_size) whole) in
        let left = length-drop (i * opt.chunk_size) whole in
        let fits : i * opt.chunk_size + length chunk ≤ length (content w) =
          omega (arith, size, left, s.sized, within) in
        record {
          sized =
              ap length e ∙ length-write_at (i * opt.chunk_size) chunk (content w) fits ∙ s.sized;
          sent = λ (j : ℕ) (l : j < length whole) z.
              ap (λ (xs : Text). get_elem? xs j) e
              ∙ elim (chunk_position i j opt.chunk_size positive) [
                | inl at ↦
                    write_at-agrees (i * opt.chunk_size) opt.chunk_size (content w) whole j s.sized
                      (omega (arith, within)) (at.1, at.2, l)
                | inr out ↦
                    get_elem?-write_at_out (i * opt.chunk_size) chunk (content w) j fits
                      (elim out.1 [ inl b ↦ inl b | inr b ↦ inr (omega (arith, size, b)) ])
                    ∙ s.sent j l (ground (arith, released (j / opt.chunk_size), z, out.0))
              ];
        }

    -- A job beyond the file's end is no longer held.
    Sent-skip :
        (i : ℕ) {pending pending' : ℕ → ℕ} {w : World}
        → length whole ≤ i * opt.chunk_size
        → ((k : ℕ) → pending k ≡ (if k == i then 1 else 0) + pending' k)
        → Sent pending w
        → Sent pending' w
    Sent-skip i {pending} {pending'} {w} beyond released s = record {
      sized = s.sized;
      sent = λ (j : ℕ) (l : j < length whole) z. elim (chunk_position i j opt.chunk_size positive) [
        | inl at ↦ absurd (before_end (i * opt.chunk_size) j (length whole) beyond at.1 l)
        | inr out ↦ s.sent j l (ground (arith, released (j / opt.chunk_size), z, out.0))
      ];
    }

    -- A group that has not failed: `others` and `done` count the jobs that the other workers hold,
    -- and those of them that have returned. A worker returns when the queue is empty.
    pub record Going (others : ℕ → ℕ) (done : ℕ) (u : Shared services) (p : Phase) : Type 0 where
      pub delivers : Sent (λ k. queued k u.queue + holds k p + others k) u.world
      pub emptied : (length u.queue ≡ 0) ⊎ (ended p + done ≡ 0)

    unfoldable pub Kept : (ℕ → ℕ) → ℕ → Shared services × Phase → Type 0
    Kept others done r = (is_some r.0.failed ≡ true) ⊎ Going others done r.0 r.1

    leave-Kept :
        (others : ℕ → ℕ) (done : ℕ) (e : GoError) (u : Shared services)
        → Kept others done (leave services (some e) u)
    unfolding Kept leave
    leave-Kept others done e u = inl (first_error-some u.failed e)

    -- A step that leaves the file, the queue and the held jobs alone.
    Going-moves :
        {others : ℕ → ℕ} {done : ℕ} {u u' : Shared services} {p p' : Phase}
        → content u'.world ≡ content u.world
        → u'.queue ≡ u.queue
        → ((k : ℕ) → holds k p ≡ holds k p')
        → ended p' ≡ 0
        → Going others done u p
        → Going others done u' p'
    Going-moves {others} {done} {u} {u'} {p} {p'} e q same live g = record {
      delivers = Sent-moves e (λ k. grind (arith, q, same k)) g.delivers;
      emptied = ground (arith, g.emptied, q, live);
    }

    uploaded-Kept :
        (others : ℕ → ℕ) (done i : ℕ) (u : Shared services) (r : World × Option GoError)
        → i * opt.chunk_size < length whole
        → let chunk = take opt.chunk_size (drop (i * opt.chunk_size) whole) in
          (r.1 ≡ none → content r.0 ≡ write_at (i * opt.chunk_size) chunk (content u.world))
          → Going others done u (holding i)
          → Kept others done (uploaded services opt path i chunk r u)
    unfolding Kept uploaded leave_connected
    uploaded-Kept others done i u (w, some e) within writes g =
        leave-Kept others done (wrap (codes "failed to upload chunk: ") e)
          (record u { world = close_worker w })
    uploaded-Kept others done i u (w, none) within writes g = inr (record {
      delivers = Sent-write i within (writes refl) (λ k. omega arith) g.delivers;
      emptied = g.emptied;
    })

    if-Kept :
        (others : ℕ → ℕ) (done : ℕ) (b : Bool) (r r' : Shared services × Phase)
        → (b ≡ true → Kept others done r)
        → (b ≡ false → Kept others done r')
        → Kept others done (if b then r else r')
    if-Kept others done true r r' k k' = k refl
    if-Kept others done false r r' k k' = k' refl

    send_chunk-Kept :
        (others : ℕ → ℕ) (done i : ℕ) (u : Shared services)
        → i * opt.chunk_size < length whole
        → Going others done u (holding i)
        → let chunk = take opt.chunk_size (drop (i * opt.chunk_size) whole) in
          Kept others done (send_chunk services opt path i chunk u)
    unfolding send_chunk leave_connected
    send_chunk-Kept others done i u within g =
        if-Kept others done _ _ _
          (λ _.
            leave-Kept others done (message (codes "chunk too large after encoding"))
              (record u { world = close_worker u.world }))
          (λ _. uploaded-Kept others done i u _ within (honest.writes i u.world within) g)

    chunk_read-Kept :
        (others : ℕ → ℕ) (done i : ℕ) (e : Option GoError) (u : Shared services)
        → Going others done u (holding i)
        → let chunk = take opt.chunk_size (drop (i * opt.chunk_size) whole) in
          Kept others done (chunk_read services opt path i chunk e u)
    unfolding Kept chunk_read leave_connected
    chunk_read-Kept others done i (some e) u g =
        leave-Kept others done (wrap (codes "read chunk: ") e)
          (record u { world = close_worker u.world })
    chunk_read-Kept others done i none u g =
        let size = length-take opt.chunk_size (drop (i * opt.chunk_size) whole) in
        let left = length-drop (i * opt.chunk_size) whole in
        if-Kept others done _ _ _
          (λ z.
            let beyond : length whole ≤ i * opt.chunk_size =
              ground (arith, size, left, z, positive) in
            inr (record {
              delivers = Sent-skip i beyond (λ k. omega arith) g.delivers;
              emptied = g.emptied;
            }))
          (λ z.
            let within : i * opt.chunk_size < length whole = ground (arith, size, left, z) in
            send_chunk-Kept others done i u within g)

    upload_chunk-Kept :
        (others : ℕ → ℕ) (done i : ℕ) (e : Option GoError) (u : Shared services)
        → Going others done u (holding i)
        → Kept others done (job_checked services opt path i e u)
    unfolding job_checked leave_connected
    upload_chunk-Kept others done i (some e) u g =
        leave-Kept others done e (record u { world = close_worker u.world })
    upload_chunk-Kept others done i none u g =
        let e = read_error (read_at opt.chunk_size (i * opt.chunk_size)).1 in
        subst (λ chunk. Kept others done (chunk_read services opt path i chunk e u))
          (sym (honest.reads i)) (chunk_read-Kept others done i e u g)

    selected-Kept :
        (b : Bool) (e : Option GoError) (others : ℕ → ℕ) (done : ℕ) (u : Shared services)
        → Going others done u starting
        → Kept others done (selected services b e u)
    unfolding Kept selected
    selected-Kept true e others done u g = inr (Going-moves refl refl (λ k. refl) refl g)
    selected-Kept false none others done u g = inr g
    selected-Kept false (some e) others done u g = inl (first_error-some u.failed e)

    connected-Kept :
        (others : ℕ → ℕ) (done : ℕ) (u : Shared services) (r : World × Option GoError)
        → content r.0 ≡ content u.world
        → Going others done u acquired
        → Kept others done (connected services r u)
    unfolding Kept connected
    connected-Kept others done u (w, none) same g = inr (Going-moves same refl (λ k. refl) refl g)
    connected-Kept others done u (w, some e) same g =
        leave-Kept others done (wrap (codes "connect worker: ") e)
          (record u { world = close_worker w })

    created-Kept :
        (others : ℕ → ℕ) (done : ℕ) (u : Shared services) (r : World × Option GoError)
        → content r.0 ≡ content u.world
        → Going others done u acquired
        → Kept others done (created services r u)
    unfolding Kept created
    created-Kept others done u (w, some e) same g =
        leave-Kept others done (wrap (codes "create worker: ") e) (record u { world = w })
    created-Kept others done u (w, none) same g =
        connected-Kept others done u (connect_worker w) (honest.connects w ∙ same) g

    take_job-Kept :
        (others : ℕ → ℕ) (done : ℕ) (u : Shared services) (queue : List ℕ)
        → u.queue ≡ queue
        → Going others done u ready
        → Kept others done (take_job services opt path queue u)
    unfolding Kept take_job leave_connected leave
    take_job-Kept others done u [] e g = inr (record {
      delivers = Sent-moves (honest.closes u.world) (λ k. refl) g.delivers;
      emptied = inl (ap length e);
    })
    take_job-Kept others done u (i ∷ queue) e g = inr (record {
      delivers = Sent-moves refl (λ k. grind (arith, e)) g.delivers;
      emptied = ground (arith, g.emptied, e);
    })

    pub advance-Kept :
        (c : Bool) (p : Phase) (others : ℕ → ℕ) (done : ℕ) (u : Shared services)
        → Going others done u p
        → Kept others done (advance services opt path c p u)
    unfolding Kept advance take_slot upload_chunk
    advance-Kept c starting others done u g =
        selected-Kept
          (ltb u.slots opt.max_concurrency && (c || not (is_some (group_error services u))))
          (group_error services u) others done u g
    advance-Kept c acquired others done u g =
        created-Kept others done u (create_worker u.world) (honest.creates u.world) g
    advance-Kept c ready others done u g = take_job-Kept others done u u.queue refl g
    advance-Kept c (holding i) others done u g =
        upload_chunk-Kept others done i (group_error services u) u g
    advance-Kept c finished others done u g = inr g
