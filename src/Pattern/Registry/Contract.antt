-- ===== src/Pattern/Registry/Contract.antt =====
-- What a rule that passed the validator can rely on when its pattern is recognised.
use mathlib.Core.Option
use trollbridge.Prelude.{
  ◌≡◌, Option, refl, ap, ◌∙◌, true, List, [], ◌∷◌, ◌++◌, map, none, some, is_some, arith, ◌==◌,
  nat_eq, list_eq, any, All, Option-cases, Bool-cases, inl, inr, ok,
}
use trollbridge.Prelude.Int.{ℤ}
use trollbridge.Prelude.Maps.{lookup, insert}
use trollbridge.Text.{Text}
use trollbridge.Types.{MatchedPattern}
use trollbridge.Pattern.Registry.{
  UrlPattern, Registry, recognize_first, recognize, check_components, validate_rule_match,
}

abbrev pub keys : List (Text × Text) → List Text
keys = map (λ (c : Text × Text). c.0)

-- The contract of the interface: a result has the declared components.
abbrev pub IsComplete : UrlPattern → Type 0
IsComplete p =
    (host : Text) (port : ℤ) (scheme path : Text) (found : List (Text × Text))
    → p.recognizes host port scheme path ≡ some found
    → keys found ≡ p.components

-- Each pattern of the list is the one under its name, and keeps the contract.
abbrev pub IsLawful : Registry → Type 0
IsLawful r = All (λ p. (lookup p.name r.by_name ≡ some p) × IsComplete p) r.ordered

abbrev added : UrlPattern → Registry → Registry
added p r = record { by_name = insert p.name p r.by_name; ordered = r.ordered ++ p ∷ [] }

-- What the new pattern makes of a request that no older one recognises.
abbrev pub or_new :
    Option MatchedPattern → UrlPattern → Text → ℤ → Text → Text → Option MatchedPattern
or_new (some found) p host port scheme path = some found
or_new none p host port scheme path =
    Option.map (λ cs. record { name = p.name; components = cs })
      (p.recognizes host port scheme path)

check_keys :
    (p : UrlPattern) (ks : List Text)
    → check_components p ks ≡ ok tt
    → All (λ k. any (λ (c : Text). c == k) p.components ≡ true) ks
unfolding check_components
check_keys p [] h = tt
check_keys p (k ∷ ks) h = elim (Bool-cases (any (λ (c : Text). c == k) p.components)) [
  | inl e ↦ (e, check_keys p ks (ground (arith, h, e)))
  | inr e ↦ ground (arith, h, e)
]

lookup-keys :
    (k : Text) (m : List (Text × Text)) → is_some (lookup k m) ≡ any (λ (c : Text). c == k) (keys m)
unfolding lookup
lookup-keys k [] = refl
lookup-keys k ((j, v) ∷ m) = ground (arith, lookup-keys k m)

recognized_by :
    (ps : List UrlPattern) (host : Text) (port : ℤ) (scheme path : Text) (mp : MatchedPattern)
    (P : UrlPattern → Type 0)
    → All P ps
    → recognize_first ps host port scheme path ≡ some mp
    → (p : UrlPattern) × P p
      × (mp.name ≡ p.name)
      × (p.recognizes host port scheme path ≡ some mp.components)
unfolding recognize_first
recognized_by [] host port scheme path mp P hs h = ground (arith, h)
recognized_by (p ∷ ps) host port scheme path mp P (k, hs) h =
    elim (Option-cases (p.recognizes host port scheme path)) [
      | inl e ↦ recognized_by ps host port scheme path mp P hs (ground (arith, e, h))
      | inr (found, e) ↦ (p, k, ground (arith, e, h), ground (arith, e, h))
    ]

All-present :
    (ks : List Text) (m : List (Text × Text)) (names : List Text)
    → keys m ≡ names
    → All (λ k. any (λ (c : Text). c == k) names ≡ true) ks
    → All (λ k. is_some (lookup k m) ≡ true) ks
All-present [] m names e h = tt
All-present (k ∷ ks) m names e (h, hs) =
    (lookup-keys k m ∙ ap (any (λ (c : Text). c == k)) e ∙ h, All-present ks m names e hs)

-- A rule's pattern clause that the validator accepted never asks for a component which the recognised
-- pattern of that name lacks: in a lawful registry, whatever request is recognised under that name,
-- every component of the clause has a value.
pub validate-present :
    (r : Registry) (v : IsLawful r) (host : Text) (port : ℤ) (scheme path : Text)
    (mp : MatchedPattern) (component_keys : List Text)
    → recognize r host port scheme path ≡ some mp
    → validate_rule_match r mp.name component_keys ≡ ok tt
    → All (λ k. is_some (lookup k mp.components) ≡ true) component_keys
unfolding recognize validate_rule_match
validate-present r v host port scheme path mp component_keys h k =
    let (p, (there, complete), named, found) =
      recognized_by r.ordered host port scheme path mp _ v h in
    All-present component_keys mp.components p.components
      (complete host port scheme path mp.components found)
      (check_keys p component_keys (ground (arith, named, there, k)))
