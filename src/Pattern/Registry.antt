-- ===== src/Pattern/Registry.antt =====
-- internal/pattern/pattern.go: the registry of URL patterns.
pub mod Contract
use trollbridge.Prelude.{
  ℕ, Bool, true, false, not, List, [], ◌∷◌, ◌++◌, Option, none, some, ◌==◌, nat_eq, list_eq,
  if◌then◌else◌, is_empty, any, Result, ok, err, guard, ◌>>◌,
}
use trollbridge.Prelude.Int.{ℤ}
use trollbridge.Prelude.Maps.{lookup, insert}
use trollbridge.Text.{Text}
use trollbridge.Types.{MatchedPattern}

-- The interface Pattern. `recognizes` is Match on host, port, scheme and path; a call that panics counts
-- as no match.
pub record UrlPattern : Type 0 where
  pub name : Text
  pub components : List Text
  pub recognizes : Text → ℤ → Text → Text → Option (List (Text × Text))

pub record Registry : Type 0 where
  pub by_name : List (Text × UrlPattern)
  pub ordered : List UrlPattern

unfoldable pub new_registry : Registry
new_registry = record { by_name = []; ordered = [] }

pub data RegistryError : Type 0 where
  empty_name : RegistryError
  duplicate unknown_pattern : Text → RegistryError
  unknown_component : Text → Text → RegistryError

unfoldable pub register : UrlPattern → Registry → Result RegistryError Registry
register p r = if is_empty p.name then err empty_name else elim (lookup p.name r.by_name) [
  | some _ ↦ err (duplicate p.name)
  | none ↦ ok (record { by_name = insert p.name p r.by_name; ordered = r.ordered ++ p ∷ [] })
]

-- The loop of Recognize.
unfoldable pub recognize_first : List UrlPattern → Text → ℤ → Text → Text → Option MatchedPattern
recognize_first [] host port scheme path = none
recognize_first (p ∷ patterns) host port scheme path =
    let rest = recognize_first patterns host port scheme path in
    elim (p.recognizes host port scheme path) [
      | none ↦ rest
      | some found ↦ some (record { name = p.name; components = found })
    ]

unfoldable pub recognize : Registry → Text → ℤ → Text → Text → Option MatchedPattern
recognize r host port scheme path = recognize_first r.ordered host port scheme path

unfoldable pub check_components : UrlPattern → List Text → Result RegistryError (Unit {0})
check_components p [] = ok tt
check_components p (key ∷ keys) =
    let rest = check_components p keys in
    if any (λ (c : Text). c == key) p.components then rest else err (unknown_component p.name key)

unfoldable pub validate_rule_match : Registry → Text → List Text → Result RegistryError (Unit {0})
validate_rule_match r pattern_name keys = elim (lookup pattern_name r.by_name) [
  | none ↦ err (unknown_pattern pattern_name)
  | some p ↦ check_components p keys
]
