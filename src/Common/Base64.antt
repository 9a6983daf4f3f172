-- ===== src/Common/Base64.antt =====
-- base64.StdEncoding.DecodeString, on texts without line breaks, and that it takes an encoding back.
use Prim.Native.Nat.{ℕ, ◌+◌, ◌-◌, ◌*◌, ◌/◌, ◌%◌, ◌<◌}
use mathlib.Core.Path.{◌≡◌, refl}
use mathlib.Core.Bool.{Bool, true, false, ◌&&◌}
use mathlib.Core.Option.{Option, none, some}
use mathlib.Core.List.{[], ◌∷◌}
use native.Mathlib.Omega.{arith}
use go_psrp.Common.Tests.{leb, ◌==◌, if◌then◌else◌}
use go_psrp.Common.Text.{Text, base64, base64_digit}

base64_value : ℕ → Option ℕ
base64_value c =
    if leb b'A' c && leb c b'Z'
    then some (c - b'A')
    else if leb b'a' c && leb c b'z'
    then some (c - b'a' + 26)
    else if leb b'0' c && leb c b'9'
    then some (c - b'0' + 52)
    else if c == b'+'
    then some 62
    else if c == b'/'
    then some 63
    else none

-- The bytes of a group of two, three or four digits.

one_byte : Option ℕ → Option ℕ → Option Text
one_byte (some a) (some b) = some ((a * 4 + b / 16) ∷ [])
one_byte _ _ = none

two_bytes : Option ℕ → Option ℕ → Option ℕ → Option Text
two_bytes (some a) (some b) (some c) = some ((a * 4 + b / 16) ∷ (b % 16 * 16 + c / 4) ∷ [])
two_bytes _ _ _ = none

three_bytes : Option ℕ → Option ℕ → Option ℕ → Option ℕ → Option Text → Option Text
three_bytes (some a) (some b) (some c) (some d) (some s) =
    some ((a * 4 + b / 16) ∷ (b % 16 * 16 + c / 4) ∷ (c % 4 * 64 + d) ∷ s)
three_bytes _ _ _ _ _ = none

abbrev no_more : Text → Bool
no_more [] = true
no_more (c ∷ s) = false

unfoldable pub base64_decode : Text → Option Text
unfolding base64_value one_byte two_bytes three_bytes
base64_decode [] = some []
base64_decode (a ∷ b ∷ c ∷ d ∷ s) =
    let rest = base64_decode s in
    if c == b'=' && d == b'=' && no_more s
    then one_byte (base64_value a) (base64_value b)
    else if d == b'=' && no_more s
    then two_bytes (base64_value a) (base64_value b) (base64_value c)
    else three_bytes (base64_value a) (base64_value b) (base64_value c) (base64_value d) rest
base64_decode _ = none

abbrev pub AllBytes : Text → Type 0
AllBytes [] = Unit
AllBytes (c ∷ s) = (c < 256) × AllBytes s

value-digit : (d : ℕ) → d < 64 → base64_value (base64_digit d) ≡ some d
unfolding base64_value base64_digit
value-digit d l = ground arith

digit-ne : (d : ℕ) → d < 64 → (base64_digit d == b'=') ≡ false
unfolding base64_digit
digit-ne d l = ground arith

pub base64_decode-base64 : (s : Text) → AllBytes s → base64_decode (base64 s) ≡ some s
unfolding base64_decode base64 one_byte two_bytes three_bytes
base64_decode-base64 [] h = refl
base64_decode-base64 (a ∷ []) (l, _) =
    let v = value-digit (a / 4) (omega arith) in
    let w = value-digit (a % 4 * 16) (omega arith) in
    let sum : a / 4 * 4 + a % 4 * 16 / 16 ≡ a = omega arith in grind (arith, v, w, sum)
base64_decode-base64 (a ∷ b ∷ []) (l, (m, _)) =
    let v = value-digit (a / 4) (omega arith) in
    let w = value-digit (a % 4 * 16 + b / 16) (omega arith) in
    let x = value-digit (b % 16 * 4) (omega arith) in
    let more = digit-ne (b % 16 * 4) (omega arith) in
    let sum : a / 4 * 4 + (a % 4 * 16 + b / 16) / 16 ≡ a = omega arith in
    let sum' : (a % 4 * 16 + b / 16) % 16 * 16 + b % 16 * 4 / 4 ≡ b = omega arith in
    grind (arith, v, w, x, more, sum, sum')
base64_decode-base64 (a ∷ b ∷ c ∷ s) (l, (m, (n, h))) =
    let v = value-digit (a / 4) (omega arith) in
    let w = value-digit (a % 4 * 16 + b / 16) (omega arith) in
    let x = value-digit (b % 16 * 4 + c / 64) (omega arith) in
    let y = value-digit (c % 64) (omega arith) in
    let more = digit-ne (b % 16 * 4 + c / 64) (omega arith) in
    let more' = digit-ne (c % 64) (omega arith) in
    let sum : a / 4 * 4 + (a % 4 * 16 + b / 16) / 16 ≡ a = omega arith in
    let sum' : (a % 4 * 16 + b / 16) % 16 * 16 + (b % 16 * 4 + c / 64) / 4 ≡ b = omega arith in
    let sum'' : (b % 16 * 4 + c / 64) % 4 * 64 + c % 64 ≡ c = omega arith in
    grind (arith, v, w, x, y, more, more', sum, sum', sum'', base64_decode-base64 s h)
