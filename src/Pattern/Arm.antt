-- ===== src/Pattern/Arm.antt =====
-- internal/pattern/azurearm.go and azure_keyvault.go: the two built-in patterns.
pub mod Complete
use trollbridge.Prelude.{
  ℕ, Bool, true, false, not, ◌&&◌, ◌||◌, List, [], ◌∷◌, Option, none, some, ◌==◌, nat_eq, list_eq,
  if◌then◌else◌, is_empty,
}
use trollbridge.Prelude.Int.{ℤ}
use trollbridge.Prelude.Maps.{insert}
use trollbridge.Text.{
  Text, codes, to_lower, equal_fold, has_suffix, trim_suffix, contains, split_byte,
}
use trollbridge.Pattern.Registry.{UrlPattern}

abbrev pub arm_components : List Text
arm_components =
    codes "subscription"
    ∷ codes "resource_group"
    ∷ codes "provider"
    ∷ codes "resource_type"
    ∷ codes "resource_name"
    ∷ []

abbrev pub no_components : List (Text × Text)
no_components =
    (codes "subscription", [])
    ∷ (codes "resource_group", [])
    ∷ (codes "provider", [])
    ∷ (codes "resource_type", [])
    ∷ (codes "resource_name", [])
    ∷ []

-- strings.IndexAny(path, "?#"): the path up to there.
unfoldable pub strip_query : Text → Text
strip_query [] = []
strip_query (c ∷ s) = let rest = strip_query s in if c == b'?' || c == b'#' then [] else c ∷ rest

unfoldable pub without_slash : Text → Text
without_slash [] = []
without_slash (c ∷ s) = if c == b'/' then s else c ∷ s

unfoldable pub split_segments : Text → List Text
split_segments p =
    let inner = trim_suffix (without_slash p) (codes "/") in
    if is_empty inner then [] else split_byte b'/' inner

-- What stands after the word providers.
unfoldable pub provider_parts : List Text → List (Text × Text) → List (Text × Text)
provider_parts [] comps = comps
provider_parts (p ∷ []) comps = insert (codes "provider") p comps
provider_parts (p ∷ t ∷ []) comps =
    insert (codes "resource_type") t (insert (codes "provider") p comps)
provider_parts (p ∷ t ∷ n ∷ segs) comps =
    insert (codes "resource_name") n
      (insert (codes "resource_type") t (insert (codes "provider") p comps))

-- The walk over the segments after the subscription.
unfoldable pub walk : List Text → List (Text × Text) → List (Text × Text)
walk [] comps = comps
walk (kw ∷ []) comps = comps
walk (kw ∷ x ∷ segs) comps =
    let grouped = walk segs (insert (codes "resource_group") x comps) in
    if to_lower kw == codes "resourcegroups"
    then grouped
    else if to_lower kw == codes "providers"
    then provider_parts (x ∷ segs) comps
    else comps

unfoldable pub recognize_segments : List Text → Option (List (Text × Text))
recognize_segments [] = none
recognize_segments (root ∷ segs) =
    if to_lower root == codes "subscriptions"
    then elim segs [
      | [] ↦ none
      | ◌∷◌ sub rest ↦ some (walk rest (insert (codes "subscription") sub no_components))
    ]
    else if to_lower root == codes "providers"
    then some (provider_parts segs no_components)
    else none

unfoldable pub match_arm : Text → ℤ → Text → Text → Option (List (Text × Text))
match_arm host port scheme path =
    if not (equal_fold host (codes "management.azure.com"))
    then none
    else recognize_segments (split_segments (strip_query path))

unfoldable pub azure_arm : UrlPattern
azure_arm = record { name = codes "azure_arm"; components = arm_components; recognizes = match_arm }

unfoldable pub match_keyvault : Text → ℤ → Text → Text → Option (List (Text × Text))
match_keyvault host port scheme path =
    let h = to_lower host in
    let vault = trim_suffix h (codes ".vault.azure.net") in
    if not (has_suffix h (codes ".vault.azure.net"))
    then none
    else if is_empty vault || contains vault (codes ".")
    then none
    else some ((codes "vault", vault) ∷ [])

unfoldable pub azure_key_vault : UrlPattern
azure_key_vault = record {
  name = codes "azure_keyvault";
  components = codes "vault" ∷ [];
  recognizes = match_keyvault;
}
