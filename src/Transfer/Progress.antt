-- ===== src/Transfer/Progress.antt =====
-- client/filetransfer.go: the progress of a transfer. There is none without a callback; the calls
-- of the callback are recorded, the latest first.
use go_psrp.Common.{
  ℕ, ◌+◌, ◌-◌, Bool, true, false, Option, none, some, List, [], ◌∷◌, if◌then◌else◌, ltb,
}

pub record TransferProgress : Type 0 where
  pub bytes_transferred : ℕ
  pub total_bytes : ℕ
  pub reported : List (ℕ × ℕ)

unfoldable pub new_progress : Bool → ℕ → Option TransferProgress
new_progress true total =
    some (record { bytes_transferred = 0; total_bytes = total; reported = [] })
new_progress false total = none

unfoldable pub update : ℕ → Option TransferProgress → Option TransferProgress
update bytes none = none
update bytes (some p) =
    let transferred = p.bytes_transferred + bytes in
    some (record p {
      bytes_transferred = transferred;
      reported = (transferred, p.total_bytes) ∷ p.reported;
    })

-- The last update of an upload, which fills up to the total.
unfoldable pub complete : ℕ → Option TransferProgress → Option TransferProgress
unfolding update
complete total none = none
complete total (some p) =
    let remaining = total - p.bytes_transferred in
    if ltb 0 remaining then update remaining (some p) else some p
