-- ===== src/Rotation/Sizes.antt =====
-- internal/log/rotation.go: the size of the log under Write.
use go_psrp.Common.{
  ◌+◌, ◌-◌, ◌≤◌, ◌<◌, ◌≡◌, ◌∙◌, inl, inr, refl, ap, sym, subst, true, Option, none, some, [], ◌++◌,
  length, length-append, arith, is_some, ltb, if◌then◌else◌, Bool-cases,
}
use go_psrp.Common.Text.{Text}
use go_psrp.Rotation.{Directory, RotatingFile, rotate, write, appended, size_of}
use go_psrp.Rotation.Shift.{rotate_lem}

-- The size of the open file is that of the log, and not above MaxSize.
pub record IsSized (r : RotatingFile × Directory) : Type 0 where
  pub backs_up : 0 < r.0.max_backups
  pub exists : is_some (r.1 0) ≡ true
  pub exact : r.0.size ≡ size_of (r.1 0)
  pub not_over : r.0.size ≤ r.0.max_size

size_of-append :
    (f : Option Text) (p : Text)
    → is_some f ≡ true
    → size_of (elim f [ none ↦ none | some t ↦ some (t ++ p) ]) ≡ size_of f + length p
size_of-append none p e = ground arith
size_of-append (some t) p e = length-append t p

is_some-append :
    (f : Option Text) (p : Text)
    → is_some f ≡ true
    → is_some (elim f [ none ↦ none | some t ↦ some (t ++ p) ]) ≡ true
is_some-append none p e = e
is_some-append (some t) p e = refl

appended-IsSized :
    (p : Text) (r : RotatingFile × Directory)
    → IsSized r
    → r.0.size + length p ≤ r.0.max_size
    → IsSized (appended p r)
unfolding appended
appended-IsSized p r i l =
    ground (arith, i, size_of-append (r.1 0) p i.exists, is_some-append (r.1 0) p i.exists)

-- After a rotation the log is empty.
record IsFresh (rf : RotatingFile) (r : RotatingFile × Directory) : Type 0 where
  same_limit : r.0.max_size ≡ rf.max_size
  same_backups : r.0.max_backups ≡ rf.max_backups
  no_size : r.0.size ≡ 0
  empty : r.1 0 ≡ some []

rotate-IsFresh : (rf : RotatingFile) (d : Directory) → 0 < rf.max_backups → IsFresh rf (rotate rf d)
rotate-IsFresh rf d l =
    let facts = rotate_lem rf (rf.max_backups - 1) d 0 (omega arith) in
    record {
      same_limit = ap (λ (f : RotatingFile). f.max_size) facts.0;
      same_backups = ap (λ (f : RotatingFile). f.max_backups) facts.0;
      no_size = ap (λ (f : RotatingFile). f.size) facts.0;
      empty = facts.1.0;
    }

IsFresh-IsSized :
    (rf : RotatingFile) (r : RotatingFile × Directory)
    → IsFresh rf r
    → 0 < rf.max_backups
    → IsSized r
IsFresh-IsSized rf r f l = record {
  backs_up = omega (arith, f.same_backups);
  exists = ap is_some f.empty;
  exact = f.no_size ∙ sym (ap size_of f.empty);
  not_over = omega (arith, f.no_size);
}

-- A Write of at most MaxSize bytes, with MaxBackups at least 1, keeps the log within MaxSize, and the
-- size on record is the log's.
pub write-IsSized :
    (p : Text) (rf : RotatingFile) (d : Directory)
    → IsSized (rf, d)
    → length p ≤ rf.max_size
    → IsSized (write p rf d)
unfolding write
write-IsSized p rf d i l = elim (Bool-cases (ltb rf.max_size (rf.size + length p))) [
  | inl e ↦
      let fresh = rotate-IsFresh rf d i.backs_up in
      subst (λ b. IsSized (appended p (if b then rotate rf d else (rf, d)))) (sym e)
        (appended-IsSized p (rotate rf d) (IsFresh-IsSized rf (rotate rf d) fresh i.backs_up)
          (omega (arith, fresh.no_size, fresh.same_limit)))
  | inr e ↦
      subst (λ b. IsSized (appended p (if b then rotate rf d else (rf, d)))) (sym e)
        (appended-IsSized p (rf, d) i (ground arith))
]
