-- ===== src/Redaction/Examples.antt =====
-- internal/log/redaction.go: a record with a password in a group.
use go_psrp.Common.{◌≡◌, refl, inl, inr}
use go_psrp.Common.Text.{codes}
use go_psrp.Redaction.{Attrs, leaf, group, no_attrs, add_attr, string, redact_leaf, redact_attrs}
use go_psrp.Redaction.Hiding.{password, InAttrs, redact_attrs-hides}

abbrev login : Attrs
login = add_attr (leaf (codes "host") (string (codes "a"))) (
    add_attr
      (group (codes "user") (add_attr (leaf (codes "UserPassword") (string (codes "x"))) no_attrs))
      no_attrs)

redact_attrs-hides_example : string (codes "[REDACTED]") ≡ string (codes "[REDACTED]")
unfolding InAttrs redact_attrs redact_leaf
redact_attrs-hides_example =
    redact_attrs-hides password (codes "UserPassword") (string (codes "[REDACTED]")) login refl
      (inr (inl (inl (refl, refl))))
