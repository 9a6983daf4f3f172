-- ===== src/Common/State.antt =====
-- Results, and a state that an error leaves as it is at that point.
use mathlib.Core.Bool.{Bool, true, false}

pub data Result {ℓ} (E A : Type ℓ) : Type ℓ where
  ok : A → Result E A
  err : E → Result E A

abbrev pub is_ok {ℓ} : {E A : Type ℓ} → Result E A → Bool
is_ok (ok a) = true
is_ok (err e) = false

abbrev pub M : Type 0 → Type 0 → Type 0 → Type 0
M S E A = S → S × Result E A

abbrev pub continue : {S E A B : Type 0} → S × Result E A → (A → M S E B) → S × Result E B
continue (s, ok a) f = f a s
continue (s, err e) f = (s, err e)

infixl 5 ◌>>=◌ ◌>>◌
abbrev pub ◌>>=◌ : {S E A B : Type 0} → M S E A → (A → M S E B) → M S E B
◌>>=◌ m f s = continue (m s) f

abbrev pub ◌>>◌ : {S E B : Type 0} → M S E (Unit {0}) → M S E B → M S E B
m >> k = m >>= λ _. k

abbrev pub pure : {S E A : Type 0} → A → M S E A
pure a s = (s, ok a)

abbrev pub throw : {S E A : Type 0} → E → M S E A
throw e s = (s, err e)

abbrev pub modify : {S E : Type 0} → (S → S) → M S E (Unit {0})
modify f s = (f s, ok tt)
