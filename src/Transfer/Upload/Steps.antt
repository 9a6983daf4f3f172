-- ===== src/Transfer/Upload/Steps.antt =====
-- client/filetransfer.go: the steps that the workers of copyFileParallel have left.
use go_psrp.Common.{
  ℕ, zero, suc, ◌+◌, ◌*◌, ◌≤◌, ◌<◌, ◌≡◌, refl, ap, ◌⊎◌, inl, inr, Bool, true, false, ◌&&◌, ◌||◌,
  not, Option, none, some, List, [], ◌∷◌, ◌++◌, ◌==◌, ltb, is_some, length, arith,
}
use go_psrp.Common.Text.{Text}
use go_psrp.Common.Errors.{GoError}
use go_psrp.Transfer.Options.{FileTransferOptions}
use go_psrp.Transfer.Upload.{
  Services, Phase, starting, acquired, ready, holding, finished, Shared, read_error, group_error,
  leave, leave_connected, connected, created, selected, take_slot, take_job, uploaded, send_chunk,
  chunk_read, job_checked, upload_chunk, advance,
}

-- The steps that a worker has left, apart from the jobs in the queue: a job takes two.
abbrev pub weight : Phase → ℕ
weight starting = 3
weight acquired = 2
weight ready = 1
weight (holding i) = 2
weight finished = 0

abbrev pub total_weight : List Phase → ℕ
total_weight [] = 0
total_weight (p ∷ ps) = weight p + total_weight ps

abbrev pub has_slot : Phase → ℕ
has_slot starting = 0
has_slot finished = 0
has_slot _ = 1

abbrev pub count_slots : List Phase → ℕ
count_slots [] = 0
count_slots (p ∷ ps) = has_slot p + count_slots ps

abbrev pub phase_at : List Phase → ℕ → Phase
phase_at [] i = finished
phase_at (p ∷ ps) zero = p
phase_at (p ∷ ps) (suc i) = phase_at ps i

-- A worker is picked somewhere in a schedule.
abbrev pub picks : ℕ → List (ℕ × Bool) → Bool
picks i [] = false
picks i ((j, c) ∷ schedule) = i == j || picks i schedule

-- Each part picks each of the first n workers.
abbrev pub Fair : ℕ → List (List (ℕ × Bool)) → Type 0
Fair n [] = Unit
Fair n (part ∷ parts) = ((i : ℕ) → i < n → picks i part ≡ true) × Fair n parts

abbrev pub joined : List (List (ℕ × Bool)) → List (ℕ × Bool)
joined [] = []
joined (part ∷ parts) = part ++ joined parts

module _ (services : Services) where
  open services use {World, create_worker, connect_worker, read_at}

  abbrev pub left : Shared services → List Phase → ℕ
  left u ps = 2 * length u.queue + total_weight ps

  -- A step of a worker: one at least less is left, and the slots are counted.
  pub record Moves (p : Phase) (u : Shared services) (r : Shared services × Phase) : Type 0 where
    pub decreases : 2 * length r.0.queue + weight r.1 < 2 * length u.queue + weight p
    pub slots_move : r.0.slots + has_slot p ≡ u.slots + has_slot r.1

  leave-Moves :
      (e : Option GoError) (p : Phase) (u : Shared services)
      → has_slot p ≡ 1
      → 1 ≤ u.slots
      → Moves p u (leave services e u)
  unfolding leave
  leave-Moves e starting u h l = omega arith
  leave-Moves e finished u h l = omega arith
  leave-Moves e acquired u h l = ground arith
  leave-Moves e ready u h l = ground arith
  leave-Moves e (holding i) u h l = ground arith

  connected-Moves :
      (r : World × Option GoError) (u : Shared services)
      → 1 ≤ u.slots
      → Moves acquired u (connected services r u)
  unfolding connected leave
  connected-Moves (w, none) u l = ground arith
  connected-Moves (w, some e) u l = ground arith

  created-Moves :
      (r : World × Option GoError) (u : Shared services)
      → 1 ≤ u.slots
      → Moves acquired u (created services r u)
  unfolding created leave
  created-Moves (w, none) u l = connected-Moves (connect_worker w) u l
  created-Moves (w, some e) u l = ground arith

  module _ (opt : FileTransferOptions) (path : Text) where
    uploaded-Moves :
        (i : ℕ) (chunk : Text) (r : World × Option GoError) (u : Shared services)
        → 1 ≤ u.slots
        → Moves (holding i) u (uploaded services opt path i chunk r u)
    unfolding uploaded leave_connected leave
    uploaded-Moves i chunk (w, none) u l = ground arith
    uploaded-Moves i chunk (w, some e) u l = ground arith

    send_chunk-Moves :
        (i : ℕ) (chunk : Text) (u : Shared services)
        → 1 ≤ u.slots
        → Moves (holding i) u (send_chunk services opt path i chunk u)
    unfolding send_chunk leave_connected leave
    send_chunk-Moves i chunk u l = ground (arith, uploaded-Moves i chunk)

    chunk_read-Moves :
        (i : ℕ) (chunk : Text) (e : Option GoError) (u : Shared services)
        → 1 ≤ u.slots
        → Moves (holding i) u (chunk_read services opt path i chunk e u)
    unfolding chunk_read leave_connected leave
    chunk_read-Moves i chunk (some e) u l = ground arith
    chunk_read-Moves i chunk none u l = ground (arith, send_chunk-Moves i chunk u l)

    job_checked-Moves :
        (i : ℕ) (e : Option GoError) (u : Shared services)
        → 1 ≤ u.slots
        → Moves (holding i) u (job_checked services opt path i e u)
    unfolding job_checked leave_connected leave
    job_checked-Moves i (some e) u l = ground arith
    job_checked-Moves i none u l =
        let r = read_at opt.chunk_size (i * opt.chunk_size) in
        chunk_read-Moves i r.0 (read_error r.1) u l

    take_job-Moves :
        (queue : List ℕ) (u : Shared services)
        → u.queue ≡ queue
        → 1 ≤ u.slots
        → Moves ready u (take_job services opt path queue u)
    unfolding take_job leave_connected leave
    take_job-Moves [] u e l = ground arith
    take_job-Moves (i ∷ queue) u e l = ground (arith, ap length e)

    take_slot-Moves :
        (c : Bool) (e : Option GoError) (u : Shared services)
        → u.slots < opt.max_concurrency
        → Moves starting u
            (selected services (ltb u.slots opt.max_concurrency && (c || not (is_some e))) e u)
    unfolding selected
    take_slot-Moves true e u l = ground arith
    take_slot-Moves false none u l = ground arith
    take_slot-Moves false (some e) u l = ground arith

    pub advance-Moves :
        (c : Bool) (p : Phase) (u : Shared services)
        → 0 < weight p
        → has_slot p ≤ u.slots
        → (has_slot p ≡ 1) ⊎ (u.slots < opt.max_concurrency)
        → Moves p u (advance services opt path c p u)
    unfolding advance take_slot upload_chunk
    advance-Moves c starting u h l (inl m) = omega arith
    advance-Moves c starting u h l (inr m) = take_slot-Moves c (group_error services u) u m
    advance-Moves c acquired u h l m = created-Moves (create_worker u.world) u l
    advance-Moves c ready u h l m = take_job-Moves u.queue u refl l
    advance-Moves c (holding i) u h l m = job_checked-Moves i (group_error services u) u l
    advance-Moves c finished u h l m = omega arith
