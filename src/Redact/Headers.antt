-- ===== src/Redact/Headers.antt =====
-- internal/redact/redact.go: Headers.
use trollbridge.Prelude.{
  Option, some, ◌⊎◌, ℕ, suc, ◌≡◌, true, List, [], ◌∷◌, ◌++◌, ◌==◌, nat_eq, list_eq, if◌then◌else◌,
  is_empty,
}
use trollbridge.Prelude.Maps.{insert, lookup}
use trollbridge.Text.{Text, codes}
use trollbridge.Policy.Rule.{header_get, canonical_key}

abbrev pub HeaderMap : Type 0
HeaderMap = List (Text × List Text)

abbrev pub redacted_mark : Text
redacted_mark = codes "<redacted>"

-- A header with a value gets the mark for its only value, and is counted.
unfoldable pub apply : Text → HeaderMap × ℕ → HeaderMap × ℕ
apply name (h, n) =
    if is_empty (header_get h name)
    then (h, n)
    else (insert (canonical_key name) (redacted_mark ∷ []) h, suc n)

unfoldable pub apply_modifier : Text → HeaderMap × ℕ → HeaderMap × ℕ
apply_modifier m st =
    if m == codes "redact_authorization_header"
    then apply (codes "Authorization") st
    else if m == codes "redact_cookie"
    then apply (codes "Cookie") st
    else st

unfoldable pub apply_modifiers : List Text → HeaderMap × ℕ → HeaderMap × ℕ
unfolding apply_modifier
apply_modifiers [] st = st
apply_modifiers (m ∷ ms) st = apply_modifiers ms (apply_modifier m st)

-- The copy of the headers and the count.
unfoldable pub redact_headers : List Text → HeaderMap → List Text → HeaderMap × ℕ
redact_headers header_modifiers h rule_modifiers =
    apply (codes "Proxy-Authorization")
      (apply_modifiers (header_modifiers ++ rule_modifiers) (h, 0))

-- All values of a header.
abbrev pub values : HeaderMap → Text → Option (List Text)
values h name = lookup (canonical_key name) h

-- The mark is the header's only value, or its values are those of the old headers.
abbrev Kept : HeaderMap → HeaderMap → Text → Type 0
Kept h out name = (values out name ≡ some (redacted_mark ∷ [])) ⊎ (values out name ≡ values h name)

-- The mark is the header's only value, or its values are those of the old headers and there the first
-- of them is missing or empty.
abbrev pub Redacts : HeaderMap → HeaderMap → Text → Type 0
Redacts h out name =
    (values out name ≡ some (redacted_mark ∷ []))
    ⊎ ((values out name ≡ values h name) × (is_empty (header_get h name) ≡ true))
