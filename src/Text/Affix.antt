-- ===== src/Text/Affix.antt =====
-- Prefixes and suffixes: what the two tests decide, and that they are transitive.
use mathlib.Core.List.{append-nil, append_assoc}
use trollbridge.Prelude.{
  ◌≡◌, refl, sym, ap, ◌∙◌, ◌≤◌, true, [], ◌∷◌, ◌++◌, some, arith, length, ◌==◌, nat_eq, list_eq,
  eq→≡, eq_refl, length-append, Bool-cases, inl, inr, Option-cases,
}
use trollbridge.Text.{Text, strip_prefix, has_prefix, has_suffix}

strip_prefix-append : (s p : Text) {r : Text} → strip_prefix s p ≡ some r → s ≡ p ++ r
unfolding strip_prefix
strip_prefix-append s [] h = ground arith
strip_prefix-append [] (p ∷ ps) h = cc
strip_prefix-append (c ∷ s) (p ∷ ps) {r} h = elim (Bool-cases (c == p)) [
  | inl e ↦ ground (arith, strip_prefix-append s ps {r = r})
  | inr e ↦ ground (arith, e)
]

append-strip_prefix : (p r : Text) → strip_prefix (p ++ r) p ≡ some r
unfolding strip_prefix
append-strip_prefix [] r = refl
append-strip_prefix (c ∷ p) r = rw (eq_refl c) (append-strip_prefix p r)

-- The prefix test is true exactly where the text splits.
pub has_prefix-split : (s p : Text) → has_prefix s p ≡ true → (r : Text) × (s ≡ p ++ r)
unfolding has_prefix
has_prefix-split s p h = elim (Option-cases (strip_prefix s p)) [
  | inl e ↦ ground (arith, e)
  | inr (r, e) ↦ (r, strip_prefix-append s p e)
]

pub split-has_prefix : (s p r : Text) → s ≡ p ++ r → has_prefix s p ≡ true
unfolding has_prefix
split-has_prefix s p r h = rw (h, append-strip_prefix p r)

pub has_prefix_trans :
    (a b c : Text) → has_prefix a b ≡ true → has_prefix b c ≡ true → has_prefix a c ≡ true
has_prefix_trans a b c h k =
    let (r, e) = has_prefix-split a b h in
    let (r', e') = has_prefix-split b c k in
    split-has_prefix a c (r' ++ r) (e ∙ ap (λ (t : Text). t ++ r) e' ∙ append_assoc c r' r)

pub has_prefix_self : (a : Text) → has_prefix a a ≡ true
has_prefix_self a = split-has_prefix a a [] (sym (append-nil a))

-- The suffix test is true exactly where the text splits.
pub has_suffix-split : (s t : Text) → has_suffix s t ≡ true → (r : Text) × (s ≡ r ++ t)
unfolding has_suffix
has_suffix-split [] t h = ([], eq→≡ [] t h)
has_suffix-split (c ∷ s) t h = elim (Bool-cases (c ∷ s == t)) [
  | inl e ↦ ([], eq→≡ (c ∷ s) t e)
  | inr e ↦ let (r, q) = has_suffix-split s t (ground arith) in (c ∷ r, ap (◌∷◌ c) q)
]

pub has_suffix_self : (t : Text) → has_suffix t t ≡ true
unfolding has_suffix
has_suffix_self [] = refl
has_suffix_self (c ∷ t) = rw (eq_refl (c ∷ t))

pub split-has_suffix : (r t : Text) → has_suffix (r ++ t) t ≡ true
unfolding has_suffix
split-has_suffix [] t = has_suffix_self t
split-has_suffix (c ∷ r) t = ground (arith, split-has_suffix r t)

pub has_suffix_trans :
    (a b c : Text) → has_suffix a b ≡ true → has_suffix b c ≡ true → has_suffix a c ≡ true
has_suffix_trans a b c h k =
    let (r, e) = has_suffix-split a b h in
    let (r', e') = has_suffix-split b c k in
    let q : a ≡ (r ++ r') ++ c = e ∙ ap (◌++◌ r) e' ∙ sym (append_assoc r r' c) in
    rw q (split-has_suffix (r ++ r') c)

pub has_suffix-length : (s t : Text) → has_suffix s t ≡ true → length t ≤ length s
has_suffix-length s t h =
    let (r, e) = has_suffix-split s t h in omega (arith, ap length e, length-append r t)
