-- ===== src/Rotation.antt =====
-- internal/log/rotation.go: the rotating log file. The directory is a list of the files under the
-- log's path: the log itself first, then the backups .1, .2 and so on; none is a file that is not
-- there. A write to the open file appends to the log. Errors of the file system are left out.
pub mod Shift
pub mod Sizes
mod Examples
use go_psrp.Common.{
  ℕ, zero, suc, ◌+◌, ◌-◌, ◌≡◌, Bool, true, false, Option, none, some, List, [], ◌∷◌, ◌++◌,
  if◌then◌else◌, ◌==◌, is_some, ltb, length,
}
use go_psrp.Common.Text.{Text}

-- The file under the path with this suffix: 0 is the log, i the backup .i.
abbrev pub Directory : Type 0
Directory = ℕ → Option Text

abbrev pub put : ℕ → Option Text → Directory → Directory
put i f d j = if i == j then f else d j

pub record RotatingFile : Type 0 where
  pub max_size : ℕ
  pub max_backups : ℕ
  -- file != nil
  pub is_open : Bool
  pub size : ℕ

abbrev pub size_of : Option Text → ℕ
size_of none = 0
size_of (some t) = length t

-- O_CREATE with O_APPEND, and the size from Stat.
unfoldable pub open_log : RotatingFile → Directory → RotatingFile × Directory
open_log rf d = (
  record rf { is_open = true; size = size_of (d 0) },
  if is_some (d 0) then d else put 0 (some []) d,
)

-- os.Rename from suffix i to suffix j, where the file is there.
unfoldable pub rename : ℕ → ℕ → Directory → Directory
rename i j d = if is_some (d i) then put i none (put j (d i) d) else d

-- The loop over the backups, from this one down to 1.
unfoldable pub shift : ℕ → Directory → Directory
unfolding rename
shift zero d = d
shift (suc i) d = shift i (rename (suc i) (suc (suc i)) d)

-- The file .0 is not the log.
abbrev pub remove_oldest : ℕ → Directory → Directory
remove_oldest zero d = d
remove_oldest (suc n) d = put (suc n) none d

unfoldable pub rotate : RotatingFile → Directory → RotatingFile × Directory
unfolding shift open_log rename
rotate rf d =
    let closed = record rf { is_open = false } in
    open_log closed (rename 0 1 (shift (rf.max_backups - 1) (remove_oldest rf.max_backups d)))

unfoldable pub appended : Text → RotatingFile × Directory → RotatingFile × Directory
appended p (rf, d) = (
  record rf { size = rf.size + length p },
  put 0 (elim (d 0) [ none ↦ none | some t ↦ some (t ++ p) ]) d,
)

unfoldable pub write : Text → RotatingFile → Directory → RotatingFile × Directory
unfolding rotate appended
write p rf d = appended p (if ltb rf.max_size (rf.size + length p) then rotate rf d else (rf, d))
