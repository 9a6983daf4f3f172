-- ===== src/Redaction/Hiding.antt =====
-- internal/log/redaction.go: what the next handler gets to see of sensitive values.
use go_psrp.Common.{◌≡◌, refl, ap, ◌∙◌, ◌⊎◌, inl, inr, Bool, true, false, arith, if◌then◌else◌}
use go_psrp.Common.Text.{Text, codes, to_lower, contains}
use go_psrp.Redaction.{
  Value, string, Attr, leaf, group, Attrs, no_attrs, add_attr, sensitive_keys, any_contained,
  redact_leaf, redact_attr, redact_attrs,
}

-- What a key names that holds a secret.
pub data Secret : Type 0 where
  password pass secret token key hash auth ticket cred : Secret

abbrev pub word : Secret → Text
word password = codes "password"
word pass = codes "pass"
word secret = codes "secret"
word token = codes "token"
word key = codes "key"
word hash = codes "hash"
word auth = codes "auth"
word ticket = codes "ticket"
word cred = codes "cred"

unfoldable mutual
  -- The key of an attribute that is no group, with its value, at any depth. The keys of the groups around
  -- it do not count.
  pub InAttr : Text → Value → Attr → Type 0
  InAttr k v (leaf k' v') = (k ≡ k') × (v ≡ v')
  InAttr k v (group name attrs) = InAttrs k v attrs

  pub InAttrs : Text → Value → Attrs → Type 0
  InAttrs k v no_attrs = ⊥
  InAttrs k v (add_attr a attrs) = InAttr k v a ⊎ InAttrs k v attrs

abbrev redacted : Value
redacted = string (codes "[REDACTED]")

secret_contained :
    (s : Secret) (k : Text) → contains k (word s) ≡ true → any_contained k sensitive_keys ≡ true
unfolding any_contained
secret_contained password k e = ground (arith, e)
secret_contained pass k e = ground (arith, e)
secret_contained secret k e = ground (arith, e)
secret_contained token k e = ground (arith, e)
secret_contained key k e = ground (arith, e)
secret_contained hash k e = ground (arith, e)
secret_contained auth k e = ground (arith, e)
secret_contained ticket k e = ground (arith, e)
secret_contained cred k e = ground (arith, e)

chosen_hides :
    (b : Bool) (s : Secret) (k k' : Text) (v v' : Value)
    → any_contained (to_lower k') sensitive_keys ≡ b
    → contains (to_lower k) (word s) ≡ true
    → InAttr k v (if b then leaf k' redacted else leaf k' v')
    → v ≡ redacted
unfolding InAttr
chosen_hides true s k k' v v' b e (same, hidden) = hidden
chosen_hides false s k k' v v' b e (same, hidden) =
    let found = secret_contained s (to_lower k) e in
    let missed = ap (λ (t : Text). any_contained (to_lower t) sensitive_keys) same ∙ b in cc

mutual
  unfolding InAttrs redact_leaf redact_attrs

  attr_hides :
      (s : Secret) (k : Text) (v : Value) (a : Attr)
      → contains (to_lower k) (word s) ≡ true
      → InAttr k v (redact_attr a)
      → v ≡ redacted
  attr_hides s k v (leaf k' v') e h =
      chosen_hides (any_contained (to_lower k') sensitive_keys) s k k' v v' refl e h
  attr_hides s k v (group name attrs) e h = attrs_hide s k v attrs e h

  attrs_hide :
      (s : Secret) (k : Text) (v : Value) (attrs : Attrs)
      → contains (to_lower k) (word s) ≡ true
      → InAttrs k v (redact_attrs attrs)
      → v ≡ redacted
  attrs_hide s k v no_attrs e h = elim h [ ]
  attrs_hide s k v (add_attr a attrs) e (inl h) = attr_hides s k v a e h
  attrs_hide s k v (add_attr a attrs) e (inr h) = attrs_hide s k v attrs e h

-- Whatever attributes a record has, in groups at any depth: where the key of an attribute that is no
-- group holds one of the nine words for a secret, in any mixture of cases, the value handed on is
-- [REDACTED]. Of the keys of the groups themselves nothing is said.
pub redact_attrs-hides :
    (s : Secret) (k : Text) (v : Value) (attrs : Attrs)
    → contains (to_lower k) (word s) ≡ true
    → InAttrs k v (redact_attrs attrs)
    → v ≡ redacted
redact_attrs-hides s k v attrs e h = attrs_hide s k v attrs e h
