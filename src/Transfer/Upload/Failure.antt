-- ===== src/Transfer/Upload/Failure.antt =====
-- client/filetransfer.go: the workers' group of copyFileParallel keeps its first error.
use go_psrp.Common.{
  ℕ, ◌≡◌, refl, sym, subst, Bool, true, false, ◌&&◌, ◌||◌, not, Option, none, some, List, [], ◌∷◌,
  if◌then◌else◌, ltb, is_some, arith,
}
use go_psrp.Common.Text.{Text, codes}
use go_psrp.Common.Errors.{GoError, wrap, sentinel, canceled}
use go_psrp.Transfer.Options.{FileTransferOptions}
use go_psrp.Transfer.Upload.{
  Services, Phase, starting, acquired, ready, holding, finished, Shared, group_error, leave,
  leave_connected, connected, created, selected, take_slot, take_job, job_checked, upload_chunk,
  advance, all_finished, returned, waiting, group_wait,
}
use go_psrp.Transfer.Upload.Pending.{first_error-some, first_error_keeps}

module _ (services : Services) where
  open services use {
    World, execute, worker_execute, create_worker, connect_worker, close_worker, read_at,
  }

  pub returned_when :
      (b : Bool) (s : Shared services × List Phase) (u : Shared services)
      → (if b then returned s.0.failed s.0 else waiting s.0 s.1) ≡ returned none u
      → (b ≡ true) × (s.0.failed ≡ none) × (s.0 ≡ u)
  returned_when true s u e = (refl, cc, cc)
  returned_when false s u e = cc

  pub waited :
      (s : Shared services × List Phase) (u : Shared services)
      → group_wait services s ≡ returned none u
      → (all_finished s.1 ≡ true) × (s.0.failed ≡ none) × (s.0 ≡ u)
  unfolding group_wait
  waited s u e = returned_when (all_finished s.1) s u e

  selected-failed :
      (b : Bool) (e : Option GoError) (u : Shared services)
      → is_some u.failed ≡ true
      → is_some (selected services b e u).0.failed ≡ true
  unfolding selected
  selected-failed true e u f = f
  selected-failed false none u f = f
  selected-failed false (some e) u f = first_error-some u.failed e

  connected-failed :
      (r : World × Option GoError) (u : Shared services)
      → is_some u.failed ≡ true
      → is_some (connected services r u).0.failed ≡ true
  unfolding connected leave
  connected-failed (w, none) u f = f
  connected-failed (w, some e) u f = first_error-some u.failed (wrap (codes "connect worker: ") e)

  created-failed :
      (r : World × Option GoError) (u : Shared services)
      → is_some u.failed ≡ true
      → is_some (created services r u).0.failed ≡ true
  unfolding created leave
  created-failed (w, none) u f = connected-failed (connect_worker w) u f
  created-failed (w, some e) u f = first_error-some u.failed (wrap (codes "create worker: ") e)

  group_error_failed :
      (u : Shared services)
      → is_some u.failed ≡ true
      → group_error services u ≡ some (sentinel canceled)
  unfolding group_error
  group_error_failed u f = grind (arith, f)

  module _ (opt : FileTransferOptions) (path : Text) where
    take_job-failed :
        (queue : List ℕ) (u : Shared services)
        → is_some u.failed ≡ true
        → is_some (take_job services opt path queue u).0.failed ≡ true
    unfolding take_job leave_connected leave
    take_job-failed [] u f = first_error_keeps u.failed none f
    take_job-failed (i ∷ queue) u f = f

    canceled-failed :
        (i : ℕ) (u : Shared services)
        → is_some u.failed ≡ true
        → is_some (job_checked services opt path i (some (sentinel canceled)) u).0.failed ≡ true
    unfolding job_checked leave_connected leave
    canceled-failed i u f = first_error-some u.failed (sentinel canceled)

    pub advance-failed :
        (c : Bool) (p : Phase) (u : Shared services)
        → is_some u.failed ≡ true
        → is_some (advance services opt path c p u).0.failed ≡ true
    unfolding advance take_slot upload_chunk
    advance-failed c starting u e =
        selected-failed
          (ltb u.slots opt.max_concurrency && (c || not (is_some (group_error services u))))
          (group_error services u) u e
    advance-failed c acquired u e = created-failed (create_worker u.world) u e
    advance-failed c ready u e = take_job-failed u.queue u e
    advance-failed c (holding i) u e =
        subst (λ x. is_some (job_checked services opt path i x u).0.failed ≡ true)
          (sym (group_error_failed u e)) (canceled-failed i u e)
    advance-failed c finished u e = e
