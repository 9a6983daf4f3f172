-- ===== src/Rotation/Examples.antt =====
-- internal/log/rotation.go: a log with two backups.
use go_psrp.Common.{zero, suc, ◌≡◌, refl, true, none, some, [], arith}
use go_psrp.Common.Text.{codes}
use go_psrp.Rotation.{Directory, RotatingFile, rotate, write}
use go_psrp.Rotation.Shift.{rotate_lem}
use go_psrp.Rotation.Sizes.{IsSized, write-IsSized}

abbrev file : RotatingFile
file = record { max_size = 4; max_backups = 2; is_open = true; size = 3 }

abbrev directory : Directory
directory zero = some (codes "new")
directory (suc zero) = some (codes "old")
directory _ = none

rotate_lem_example :
    ((rotate file directory).0 ≡ record file { is_open = true; size = 0 })
    × (((rotate file directory).1 0 ≡ some []) × ((rotate file directory).1 2 ≡ some (codes "old")))
rotate_lem_example = rotate_lem file 1 directory 1 refl

write-IsSized_example : IsSized (write (codes "ab") file directory)
write-IsSized_example =
    write-IsSized (codes "ab") file directory
      (record { backs_up = omega arith; exists = refl; exact = refl; not_over = omega arith })
      (omega arith)
