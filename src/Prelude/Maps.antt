-- ===== src/Prelude/Maps.antt =====
-- Go maps as association lists: a write replaces the entry or adds one, a delete drops it.
use Prim.Native.Nat.{ℕ, ◌+◌, ◌≤◌}
use mathlib.Core.Path.{◌≡◌, refl}
use mathlib.Core.Option.{Option, none, some}
use mathlib.Core.List.{List, [], ◌∷◌}
use native.Mathlib.Omega.{arith}
use trollbridge.Prelude.Tests.{if◌then◌else◌, Bool-cases}
use mathlib.Core.Logic.{◌≢◌, ◌⊎◌, inl, inr}
use trollbridge.Prelude.Classes.{Eq, ◌==◌, nat_eq, eq_iff, eq→≡, eq_refl}
use trollbridge.Prelude.Lists.{length}

module _ {ℓ κ} {K : Type ℓ} ⦃e : Eq K⦄ {V : Type κ} where
  unfoldable pub delete : K → List (K × V) → List (K × V)
  delete key [] = []
  delete key ((other, v) ∷ entries) =
      let rest = delete key entries in if other == key then rest else (other, v) ∷ rest

  unfoldable pub lookup : K → List (K × V) → Option V
  lookup key [] = none
  lookup key (entry ∷ entries) = if entry.0 == key then some entry.1 else lookup key entries

  pub lookup-delete :
      (k j : K) (m : List (K × V)) → lookup j (delete k m) ≡ (if k == j then none else lookup j m)
  unfolding lookup delete
  lookup-delete k j [] = ground arith
  lookup-delete k j ((i, w) ∷ m) =
      ground (arith, eq_iff k j, eq_iff i k, eq_iff i j, lookup-delete k j m)

  unfoldable pub insert : K → V → List (K × V) → List (K × V)
  insert key new [] = (key, new) ∷ []
  insert key new (entry ∷ entries) =
      let rest = insert key new entries in
      if entry.0 == key then (key, new) ∷ entries else entry ∷ rest

  pub lookup-insert :
      (k j : K) (new : V) (entries : List (K × V))
      → lookup j (insert k new entries) ≡ (if k == j then some new else lookup j entries)
  unfolding insert lookup
  lookup-insert k j new (entry ∷ entries) =
      ground (arith, lookup-insert k j new entries, eq_iff entry.0 j, eq_iff entry.0 k, eq_iff k j)
  lookup-insert k j new [] = refl

  pub length-delete-le : (k : K) (m : List (K × V)) → length (delete k m) ≤ length m
  unfolding delete
  length-delete-le k [] = omega arith
  length-delete-le k ((j, w) ∷ m) = ground (arith, length-delete-le k m)

  -- A write of a new key adds one entry.
  pub length-insert_new :
      (k : K) (v : V) (m : List (K × V)) → lookup k m ≡ none → length (insert k v m) ≡ length m + 1
  unfolding lookup insert
  length-insert_new k v [] h = omega arith
  length-insert_new k v ((j, w) ∷ m) h = ground (arith, length-insert_new k v m)

  pub lookup-delete-some :
      (k j : K) (m : List (K × V)) {v : V}
      → lookup j (delete k m) ≡ some v
      → (k ≢ j) × (lookup j m ≡ some v)
  lookup-delete-some k j m {v} h = (
    λ q. ground (arith, lookup-delete k j m, eq_iff k j, h),
    ground (arith, lookup-delete k j m, h),
  )

  pub lookup-delete_ne : (k j : K) (m : List (K × V)) → k ≢ j → lookup j (delete k m) ≡ lookup j m
  lookup-delete_ne k j m ne = ground (arith, lookup-delete k j m, eq_iff k j, ne)

  pub lookup-insert-some :
      (k j : K) (v : V) (m : List (K × V)) {w : V}
      → lookup j (insert k v m) ≡ some w
      → ((k ≡ j) × (v ≡ w)) ⊎ ((k ≢ j) × (lookup j m ≡ some w))
  lookup-insert-some k j v m {w} h = elim (Bool-cases (k == j)) [
    | inl e ↦ inl (eq→≡ k j e, ground (arith, lookup-insert k j v m, e, h))
    | inr e ↦
        inr (λ q. ground (arith, eq_iff k j, e, q), ground (arith, lookup-insert k j v m, e, h))
  ]

  pub lookup-insert_self : (k : K) (v : V) (m : List (K × V)) → lookup k (insert k v m) ≡ some v
  lookup-insert_self k v m = ground (arith, lookup-insert k k v m, eq_refl k)

  pub lookup-insert_ne :
      (k j : K) (v : V) (m : List (K × V)) → k ≢ j → lookup j (insert k v m) ≡ lookup j m
  lookup-insert_ne k j v m ne = ground (arith, lookup-insert k j v m, eq_iff k j, ne)

-- Memory: a function from addresses, written at one of them.
abbrev pub update {ℓ} : {A : Type ℓ} → (ℕ → A) → ℕ → A → ℕ → A
update f a v b = if a == b then v else f b

module _ {ℓ} {A : Type ℓ} where
  pub update_self : (f : ℕ → A) (a : ℕ) (v : A) → update f a v a ≡ v
  update_self f a v = ground arith

  pub update-ne : (f : ℕ → A) (a b : ℕ) (v : A) → a ≢ b → update f a v b ≡ f b
  update-ne f a b v ne = ground (arith, ne)

  -- What a written memory holds is the value written or an old one.
  pub update-cases :
      (f : ℕ → A) (a b : ℕ) (v : A) {w : A}
      → update f a v b ≡ w
      → ((a ≡ b) × (v ≡ w)) ⊎ ((a ≢ b) × (f b ≡ w))
  update-cases f a b v {w} h = elim (Bool-cases (a == b)) [
    | inl e ↦ inl (eq→≡ a b e, ground (arith, h, e))
    | inr e ↦ inr (λ q. ground (arith, eq_iff a b, q, e), ground (arith, h, e))
  ]
