-- ===== src/Transfer/Output.antt =====
-- client/filetransfer.go: what is made of the first output of a script, and the comparison of the
-- checksums. fmt's %v is a parameter.
use go_psrp.Common.{
  ℕ, ◌+◌, ◌*◌, ◌/◌, ◌%◌, ◌≡◌, ◌<◌, refl, ◌∙◌, Bool, ◌&&◌, ◌||◌, Option, none, some, [], ◌∷◌,
  if◌then◌else◌, leb, ◌==◌, ap, arith,
}
use go_psrp.Common.Text.{Text, is_empty, base64, base64_digit}

-- A value of the output: an int64, int or float64 as the int64 it converts to, a string, a
-- *serialization.PSObject with its ToString, or another.
pub data Value : Type 0 where
  number : ℕ → Value
  string : Text → Value
  ps_object : Text → Value
  other : Text → Value

-- strings.TrimSpace on ASCII.
abbrev pub is_space : ℕ → Bool
is_space c = (leb 9 c && leb c 13) || c == b' '

abbrev pub trim_start : Text → Text
trim_start [] = []
trim_start (c ∷ s) = let rest = trim_start s in if is_space c then rest else c ∷ s

abbrev pub trim_end : Text → Text
trim_end [] = []
trim_end (c ∷ s) = let rest = trim_end s in if is_empty rest && is_space c then [] else c ∷ rest

abbrev pub trim_space : Text → Text
trim_space s = trim_end (trim_start s)

-- The text of the first output, as FetchFile takes it; an output that is not there is empty.
unfoldable pub output_text : (Value → Text) → Option Value → Text
output_text shown none = []
output_text shown (some (string s)) = trim_space s
output_text shown (some (ps_object s)) = trim_space s
output_text shown (some v) = trim_space (shown v)

-- As copyFileStreaming takes it: another value is not trimmed.
unfoldable pub streaming_output_text : (Value → Text) → Option Value → Text
streaming_output_text shown none = []
streaming_output_text shown (some (string s)) = trim_space s
streaming_output_text shown (some (ps_object s)) = trim_space s
streaming_output_text shown (some v) = shown v

abbrev pub NoSpace : Text → Type 0
NoSpace [] = Unit
NoSpace (c ∷ s) = (b' ' < c) × NoSpace s

trim_start-NoSpace : (s : Text) → NoSpace s → trim_start s ≡ s
trim_start-NoSpace [] h = refl
trim_start-NoSpace (c ∷ s) (l, h) = ground arith

trim_end-NoSpace : (s : Text) → NoSpace s → trim_end s ≡ s
trim_end-NoSpace [] h = refl
trim_end-NoSpace (c ∷ s) (l, h) = let rest = trim_end-NoSpace s h in ground (arith, rest)

pub trim_space-NoSpace : (s : Text) → NoSpace s → trim_space s ≡ s
trim_space-NoSpace s h = ap trim_end (trim_start-NoSpace s h) ∙ trim_end-NoSpace s h

digit_not_space : (d : ℕ) → b' ' < base64_digit d
unfolding base64_digit
digit_not_space d = ground arith

pub base64-NoSpace : (s : Text) → NoSpace (base64 s)
unfolding base64
base64-NoSpace [] = tt
base64-NoSpace (a ∷ []) =
    (digit_not_space (a / 4), (digit_not_space (a % 4 * 16), (omega arith, (omega arith, tt))))
base64-NoSpace (a ∷ b ∷ []) = (
  digit_not_space (a / 4),
  (digit_not_space (a % 4 * 16 + b / 16), (digit_not_space (b % 16 * 4), (omega arith, tt))),
)
base64-NoSpace (a ∷ b ∷ c ∷ s) = (
  digit_not_space (a / 4),
  (
    digit_not_space (a % 4 * 16 + b / 16),
    (digit_not_space (b % 16 * 4 + c / 64), (digit_not_space (c % 64), base64-NoSpace s)),
  ),
)
