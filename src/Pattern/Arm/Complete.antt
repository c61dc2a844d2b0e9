-- ===== src/Pattern/Arm/Complete.antt =====
-- What the built-in patterns extract.
use trollbridge.Prelude.{
  ◌≡◌, refl, ap, ◌∙◌, true, List, [], ◌∷◌, some, arith, ◌==◌, nat_eq, list_eq, eq_iff, any,
  Bool-cases, inl, inr,
}
use trollbridge.Prelude.Int.{ℤ}
use trollbridge.Prelude.Maps.{insert}
use trollbridge.Text.{Text, codes, to_lower}
use trollbridge.Pattern.Registry.Contract.{keys, IsComplete}
use trollbridge.Pattern.Arm.{
  arm_components, no_components, provider_parts, walk, recognize_segments, match_arm, azure_arm,
  match_keyvault, azure_key_vault, strip_query, split_segments,
}

keys-insert :
    (k v : Text) (m : List (Text × Text))
    → any (λ (c : Text). c == k) (keys m) ≡ true
    → keys (insert k v m) ≡ keys m
unfolding insert
keys-insert k v [] h = ground (arith, h)
keys-insert k v ((j, w) ∷ m) h = ground (arith, h, eq_iff j k, keys-insert k v m)

abbrev IsArm : List (Text × Text) → Type 0
IsArm m = keys m ≡ arm_components

insert-IsArm :
    (k v : Text) (m : List (Text × Text))
    → any (λ (c : Text). c == k) arm_components ≡ true
    → IsArm m
    → IsArm (insert k v m)
insert-IsArm k v m h a = keys-insert k v m (ap (any (λ (c : Text). c == k)) a ∙ h) ∙ a

provider_parts-IsArm :
    (segs : List Text) (m : List (Text × Text)) → IsArm m → IsArm (provider_parts segs m)
unfolding provider_parts
provider_parts-IsArm [] m a = a
provider_parts-IsArm (p ∷ []) m a = insert-IsArm _ p m refl a
provider_parts-IsArm (p ∷ t ∷ []) m a = insert-IsArm _ t _ refl (insert-IsArm _ p m refl a)
provider_parts-IsArm (p ∷ t ∷ n ∷ segs) m a =
    insert-IsArm _ n _ refl (insert-IsArm _ t _ refl (insert-IsArm _ p m refl a))

walk-IsArm : (segs : List Text) (m : List (Text × Text)) → IsArm m → IsArm (walk segs m)
unfolding walk
walk-IsArm [] m a = a
walk-IsArm (kw ∷ []) m a = a
walk-IsArm (kw ∷ x ∷ segs) m a = elim (Bool-cases (to_lower kw == codes "resourcegroups")) [
  | inl e ↦ rw e (walk-IsArm segs _ (insert-IsArm _ x m refl a))
  | inr e ↦ elim (Bool-cases (to_lower kw == codes "providers")) [
    | inl f ↦ rw (e, f) (provider_parts-IsArm (x ∷ segs) m a)
    | inr f ↦ rw (e, f) a
  ]
]

segments-IsArm :
    (segs : List Text) (m : List (Text × Text)) → recognize_segments segs ≡ some m → IsArm m
unfolding recognize_segments
segments-IsArm [] m h = ground (arith, h)
segments-IsArm (root ∷ []) m h = ground (arith, h, provider_parts-IsArm [] no_components refl)
segments-IsArm (root ∷ sub ∷ segs) m h = ground (
  arith,
  h,
  provider_parts-IsArm (sub ∷ segs) no_components refl,
  walk-IsArm segs (insert (codes "subscription") sub no_components)
      (insert-IsArm _ sub no_components refl refl),
)

-- Whatever request the Resource Manager pattern recognises, its result has exactly the five components
-- that the pattern declares, in that order.
pub match_arm-keys :
    (host : Text) (port : ℤ) (scheme path : Text) (found : List (Text × Text))
    → match_arm host port scheme path ≡ some found
    → keys found ≡ azure_arm.components
unfolding match_arm azure_arm
match_arm-keys host port scheme path found h =
    segments-IsArm (split_segments (strip_query path)) found (ground (arith, h))

pub azure_arm-IsComplete : IsComplete azure_arm
unfolding azure_arm
azure_arm-IsComplete = match_arm-keys

pub azure_key_vault-IsComplete : IsComplete azure_key_vault
unfolding azure_key_vault match_keyvault
azure_key_vault-IsComplete host port scheme path found h = ground (arith, h)
