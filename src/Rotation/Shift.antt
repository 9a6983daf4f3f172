-- ===== src/Rotation/Shift.antt =====
-- internal/log/rotation.go: where the files are after a rotation.
use go_psrp.Common.{
  ◌⊎◌, inl, inr, ap, sym, subst, ℕ, zero, suc, ◌-◌, ◌≤◌, ◌<◌, ◌≡◌, ◌≢◌, refl, ◌∙◌, true, false,
  Option, none, some, [], arith, if◌then◌else◌, leb,
}
use go_psrp.Common.Text.{Text}
use go_psrp.Rotation.{Directory, RotatingFile, put, remove_oldest, rename, shift, open_log, rotate}

rename_other : (i j : ℕ) (d : Directory) (m : ℕ) → m ≢ i → m ≢ j → rename i j d m ≡ d m
unfolding rename
rename_other i j d m p q = grind (arith, p, q)

rename_source : (i j : ℕ) (d : Directory) → rename i j d i ≡ none
unfolding rename
rename_source i j d = grind arith

rename_target : (i j : ℕ) (d : Directory) → i ≢ j → d j ≡ none → rename i j d j ≡ d i
unfolding rename
rename_target i j d p e = grind (arith, p, e)

last_or_before : (k n : ℕ) → k ≤ suc n → (k ≡ suc n) ⊎ (k ≤ n)
last_or_before k n l = ground arith

shift_outside : (n : ℕ) (d : Directory) (m : ℕ) → (m ≡ 0) ⊎ (suc n < m) → shift n d m ≡ d m
unfolding shift
shift_outside zero d m o = refl
shift_outside (suc n) d m o =
    shift_outside n (rename (suc n) (suc (suc n)) d) m (ground arith)
    ∙ rename_other (suc n) (suc (suc n)) d m (ground arith) (ground arith)

shift_first : (n : ℕ) (d : Directory) → d (suc n) ≡ none → shift n d 1 ≡ none
unfolding shift
shift_first zero d e = e
shift_first (suc n) d e =
    shift_first n (rename (suc n) (suc (suc n)) d) (rename_source (suc n) (suc (suc n)) d)

shift_moves :
    (n : ℕ) (d : Directory) (k : ℕ) → d (suc n) ≡ none → 1 ≤ k → k ≤ n → shift n d (suc k) ≡ d k
unfolding shift
shift_moves zero d k e l m = ground arith
shift_moves (suc n) d k e l m =
    let d' = rename (suc n) (suc (suc n)) d in
    elim (last_or_before k n m) [
      | inl p ↦
          ap (λ i. shift n d' (suc i)) p
          ∙ shift_outside n d' (suc (suc n)) (inr (omega arith))
          ∙ rename_target (suc n) (suc (suc n)) d (omega arith) e
          ∙ ap d (sym p)
      | inr b ↦
          shift_moves n d' k (rename_source (suc n) (suc (suc n)) d) l b
          ∙ rename_other (suc n) (suc (suc n)) d k (omega arith) (omega arith)
    ]

put_self : (i : ℕ) (f : Option Text) (d : Directory) → put i f d i ≡ f
put_self i f d = grind arith

put_other : (i : ℕ) (f : Option Text) (d : Directory) (j : ℕ) → j ≢ i → put i f d j ≡ d j
put_other i f d j p = grind (arith, p)

-- Before the new log is opened.
abbrev renamed : ℕ → Directory → Directory
renamed n d = rename 0 1 (shift n (put (suc n) none d))

renamed_first : (n : ℕ) (d : Directory) → renamed n d 1 ≡ d 0
renamed_first n d =
    let cleared = put (suc n) none d in
    rename_target 0 1 (shift n cleared) (omega arith)
      (shift_first n cleared (put_self (suc n) none d))
    ∙ shift_outside n cleared 0 (inl refl)
    ∙ put_other (suc n) none d 0 (omega arith)

renamed_moved : (n : ℕ) (d : Directory) (k : ℕ) → 1 ≤ k → k ≤ n → renamed n d (suc k) ≡ d k
renamed_moved n d k l m =
    let cleared = put (suc n) none d in
    rename_other 0 1 (shift n cleared) (suc k) (omega arith) (omega arith)
    ∙ shift_moves n cleared k (put_self (suc n) none d) l m
    ∙ put_other (suc n) none d k (omega arith)

renamed_beyond : (n : ℕ) (d : Directory) (k : ℕ) → n < k → renamed n d (suc k) ≡ d (suc k)
renamed_beyond n d k l =
    let cleared = put (suc n) none d in
    rename_other 0 1 (shift n cleared) (suc k) (omega arith) (omega arith)
    ∙ shift_outside n cleared (suc k) (inr (omega arith))
    ∙ put_other (suc n) none d (suc k) (omega arith)

renamed_lem :
    (n : ℕ) (d : Directory) (k : ℕ) → renamed n d (suc k) ≡ (if leb k n then d k else d (suc k))
renamed_lem n d zero = ground (arith, renamed_first n d)
renamed_lem n d (suc k) = ground (arith, renamed_moved n d (suc k), renamed_beyond n d (suc k))

opened :
    (rf : RotatingFile) (d : Directory) (k : ℕ)
    → d 0 ≡ none
    → ((open_log rf d).0 ≡ record rf { is_open = true; size = 0 })
      × (((open_log rf d).1 0 ≡ some []) × ((open_log rf d).1 (suc k) ≡ d (suc k)))
unfolding open_log
opened rf d k e = grind (arith, e)

before : (n : ℕ) → suc n - 1 ≡ n
before n = omega arith

rotate-renamed :
    (rf : RotatingFile) (n : ℕ) (d : Directory)
    → rf.max_backups ≡ suc n
    → rotate rf d ≡ open_log (record rf { is_open = false }) (renamed n d)
unfolding rotate
rotate-renamed rf n d p =
    let from = λ (b j : ℕ).
      open_log (record rf { is_open = false }) (rename 0 1 (shift j (remove_oldest b d))) in
    ap (λ b. from b (b - 1)) p ∙ ap (from (suc n)) (before n)

-- With MaxBackups n + 1: after a rotation the log is empty and open, the first backup is the old log,
-- each backup up to the n-th has moved up by one, and the files beyond are as they were, so that the
-- oldest backup is the only one gone.
pub rotate_lem :
    (rf : RotatingFile) (n : ℕ) (d : Directory) (k : ℕ)
    → rf.max_backups ≡ suc n
    → ((rotate rf d).0 ≡ record rf { is_open = true; size = 0 })
      × (((rotate rf d).1 0 ≡ some [])
          × ((rotate rf d).1 (suc k) ≡ (if leb k n then d k else d (suc k))))
rotate_lem rf n d k p =
    let start =
      opened (record rf { is_open = false }) (renamed n d) k
        (rename_source 0 1 (shift n (put (suc n) none d))) in
    subst
      (λ r.
        (r.0 ≡ record rf { is_open = true; size = 0 })
        × ((r.1 0 ≡ some []) × (r.1 (suc k) ≡ (if leb k n then d k else d (suc k)))))
      (sym (rotate-renamed rf n d p)) (start.0, (start.1.0, start.1.1 ∙ renamed_lem n d k))
