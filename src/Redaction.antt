-- ===== src/Redaction.antt =====
-- internal/log/redaction.go: the slog handler that hides the values of sensitive keys. The next
-- handler is a parameter; so is what a record holds besides its attributes. A value that is no
-- group stands for itself: one that would resolve to a group (a slog.LogValuer) is not resolved.
pub mod Hiding
mod Examples
use go_psrp.Common.{Bool, true, false, ◌||◌, List, [], ◌∷◌, if◌then◌else◌, ℕ}
use go_psrp.Common.Text.{Text, codes, to_lower, contains}

-- A value that is no group: a string, or a value of another kind.
pub data Value : Type 0 where
  string : Text → Value
  other : ℕ → Value

mutual
  -- slog.Attr: a key with a value, or with a group.
  pub data Attr : Type 0 where
    leaf : Text → Value → Attr
    group : Text → Attrs → Attr

  pub data Attrs : Type 0 where
    no_attrs : Attrs
    add_attr : Attr → Attrs → Attrs

abbrev pub sensitive_keys : List Text
sensitive_keys =
    codes "password"
    ∷ codes "pass"
    ∷ codes "secret"
    ∷ codes "token"
    ∷ codes "key"
    ∷ codes "hash"
    ∷ codes "auth"
    ∷ codes "ticket"
    ∷ codes "cred"
    ∷ []

any_contained : Text → List Text → Bool
any_contained s [] = false
any_contained s (k ∷ ks) = contains s k || any_contained s ks

-- The order in which the keys are tried does not matter.
unfoldable pub redact_leaf : Text → Value → Attr
unfolding any_contained
redact_leaf key v =
    if any_contained (to_lower key) sensitive_keys
    then leaf key (string (codes "[REDACTED]"))
    else leaf key v

unfoldable mutual
  pub redact_attr : Attr → Attr
  redact_attr (leaf key v) = redact_leaf key v
  redact_attr (group key attrs) = group key (redact_attrs attrs)

  pub redact_attrs : Attrs → Attrs
  redact_attrs no_attrs = no_attrs
  redact_attrs (add_attr a attrs) = add_attr (redact_attr a) (redact_attrs attrs)

-- The handler that comes next. A record's time, level, message and program counter are its `head`.
pub record NextHandler : Type 1 where
  pub Next : Type 0
  pub Head : Type 0
  pub is_enabled : Next → ℕ → Bool
  pub handle_next : Next → Head → Attrs → Next
  pub next_with_attrs : Next → Attrs → Next
  pub next_with_group : Next → Text → Next

module _ (handler : NextHandler) where
  open handler use {Next, Head, is_enabled, handle_next, next_with_attrs, next_with_group}

  unfoldable pub enabled : Next → ℕ → Bool
  enabled next level = is_enabled next level

  unfoldable pub handle : Next → Head → Attrs → Next
  unfolding redact_attrs
  handle next head attrs = handle_next next head (redact_attrs attrs)

  unfoldable pub with_attrs : Next → Attrs → Next
  unfolding redact_attrs
  with_attrs next attrs = next_with_attrs next (redact_attrs attrs)

  unfoldable pub with_group : Next → Text → Next
  with_group next name = next_with_group next name
