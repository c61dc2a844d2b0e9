-- ===== src/Tests/Families.antt =====
-- The built-in pattern families in a registry.
use trollbridge.Prelude.{◌≡◌, refl, true, List, [], ◌∷◌, some, is_some, All, ok, nat_eq, list_eq}
use trollbridge.Prelude.Int.{pos}
use trollbridge.Prelude.Maps.{lookup, insert}
use trollbridge.Text.{Text, codes}
use trollbridge.Types.{MatchedPattern}
use trollbridge.Pattern.Registry.{Registry, new_registry, register, recognize, validate_rule_match}
use trollbridge.Pattern.Registry.Contract.{keys, IsLawful, validate-present}
use trollbridge.Pattern.Arm.{azure_key_vault, azure_arm, match_arm}
use trollbridge.Pattern.Arm.Complete.{azure_key_vault-IsComplete, match_arm-keys}

abbrev vaults : Registry
vaults = record {
  by_name = (codes "azure_keyvault", azure_key_vault) ∷ [];
  ordered = azure_key_vault ∷ [];
}

registered : register azure_key_vault new_registry ≡ ok vaults
unfolding register new_registry lookup insert azure_key_vault
registered = refl

vaults-IsLawful : IsLawful vaults
unfolding lookup azure_key_vault
vaults-IsLawful = ((refl, azure_key_vault-IsComplete), tt)

abbrev team_vault : MatchedPattern
team_vault = record {
  name = codes "azure_keyvault";
  components = (codes "vault", codes "team") ∷ [];
}

recognized :
    recognize vaults (codes "Team.vault.azure.net") (pos 443) (codes "https") [] ≡ some team_vault
unfolding recognize trollbridge.Pattern.Registry.recognize_first azure_key_vault
    trollbridge.Pattern.Arm.match_keyvault trollbridge.Text.to_lower trollbridge.Text.trim_suffix
    trollbridge.Text.has_suffix trollbridge.Text.contains trollbridge.Text.cut
recognized = refl

validated : validate_rule_match vaults (codes "azure_keyvault") (codes "vault" ∷ []) ≡ ok tt
unfolding validate_rule_match trollbridge.Pattern.Registry.check_components lookup azure_key_vault
validated = refl

validate-present_example :
    All (λ k. is_some (lookup k team_vault.components) ≡ true) (codes "vault" ∷ [])
validate-present_example =
    validate-present vaults vaults-IsLawful (codes "Team.vault.azure.net") (pos 443) (codes "https")
      [] team_vault (codes "vault" ∷ []) recognized validated

abbrev arm_result : List (Text × Text)
arm_result =
    (codes "subscription", codes "s1")
    ∷ (codes "resource_group", codes "g1")
    ∷ (codes "provider", [])
    ∷ (codes "resource_type", [])
    ∷ (codes "resource_name", [])
    ∷ []

arm_recognized :
    match_arm
      (codes "management.azure.com")
      (pos 443)
      (codes "https")
      (codes "/subscriptions/s1/resourceGroups/g1")
    ≡ some arm_result
unfolding match_arm trollbridge.Pattern.Arm.recognize_segments trollbridge.Pattern.Arm.walk
    trollbridge.Pattern.Arm.split_segments trollbridge.Pattern.Arm.strip_query
    trollbridge.Pattern.Arm.without_slash trollbridge.Text.to_lower trollbridge.Text.equal_fold
    trollbridge.Text.trim_suffix trollbridge.Text.split_byte insert
arm_recognized = refl

match_arm-keys_example : keys arm_result ≡ azure_arm.components
match_arm-keys_example =
    match_arm-keys (codes "management.azure.com") (pos 443) (codes "https")
      (codes "/subscriptions/s1/resourceGroups/g1") arm_result arm_recognized
