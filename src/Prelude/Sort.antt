-- ===== src/Prelude/Sort.antt =====
-- Go's sort.SliceStable, for a test `less`: the result is a permutation of the list, in order, for
-- every strict weak order. A stable sort has one result, so insertion computes it.
use mathlib.Core.Path.{◌≡◌, refl}
use mathlib.Core.Bool.{Bool, true, false, ◌||◌}
use mathlib.Core.List.{List, [], ◌∷◌, Perm}
use mathlib.Core.List.Perm
use native.Mathlib.Omega.{arith}
use mathlib.Core.Logic.{inl, inr}
use trollbridge.Prelude.Tests.{if◌then◌else◌, Bool-cases}
use trollbridge.Prelude.Lists.{All, filter_by, any}

module _ {ℓ} {A : Type ℓ} (less : A → A → Bool) where
  unfoldable pub insert_by : A → List A → List A
  insert_by x [] = x ∷ []
  insert_by x (y ∷ ys) = let later = y ∷ insert_by x ys in if less y x then later else x ∷ y ∷ ys

  unfoldable pub sort_stable : List A → List A
  unfolding insert_by
  sort_stable [] = []
  sort_stable (x ∷ xs) = insert_by x (sort_stable xs)

  -- No element is below one that stands before it.
  abbrev pub IsSorted : List A → Type ℓ
  IsSorted [] = Unit
  IsSorted (x ∷ xs) = All (λ y. less y x ≡ false) xs × IsSorted xs

  pub insert_by-perm : (x : A) (ys : List A) → Perm (insert_by x ys) (x ∷ ys)
  unfolding insert_by
  insert_by-perm x [] = Perm.refl (x ∷ [])
  insert_by-perm x (y ∷ ys) = elim (Bool-cases (less y x)) [
    | inl e ↦ rw e (Perm.trans (Perm.cons y (insert_by-perm x ys)) (Perm.swap x y ys))
    | inr e ↦ rw e (Perm.refl (x ∷ y ∷ ys))
  ]

  pub sort_stable-perm : (xs : List A) → Perm (sort_stable xs) xs
  unfolding sort_stable
  sort_stable-perm [] = Perm.refl []
  sort_stable-perm (x ∷ xs) =
      Perm.trans (insert_by-perm x (sort_stable xs)) (Perm.cons x (sort_stable-perm xs))

  module _ (p : A → Bool) where
    any-insert_by : (x : A) (ys : List A) → any p (insert_by x ys) ≡ (p x || any p ys)
    unfolding insert_by
    any-insert_by x [] = refl
    any-insert_by x (y ∷ ys) = ground (arith, any-insert_by x ys)

    pub any-sort_stable : (xs : List A) → any p (sort_stable xs) ≡ any p xs
    unfolding sort_stable
    any-sort_stable [] = refl
    any-sort_stable (x ∷ xs) = ground (arith, any-insert_by x (sort_stable xs), any-sort_stable xs)

  module _ {κ} (P : A → Type κ) where
    All-insert_by : (x : A) (ys : List A) → P x → All P ys → All P (insert_by x ys)
    unfolding insert_by
    All-insert_by x [] h hs = (h, tt)
    All-insert_by x (y ∷ ys) h (k, hs) = elim (Bool-cases (less y x)) [
      | inl e ↦ rw e (k, All-insert_by x ys h hs)
      | inr e ↦ rw e (h, (k, hs))
    ]

    pub All-sort_stable : (xs : List A) → All P xs → All P (sort_stable xs)
    unfolding sort_stable
    All-sort_stable [] h = tt
    All-sort_stable (x ∷ xs) (h, hs) = All-insert_by x (sort_stable xs) h (All-sort_stable xs hs)

  -- Elements of a class within which none is below another keep their order.
  module _ (p : A → Bool) (alike : (a b : A) → p a ≡ true → p b ≡ true → less a b ≡ false) where
    pub filter_by-insert_by :
        (x : A) (ys : List A) → filter_by p (insert_by x ys) ≡ filter_by p (x ∷ ys)
    unfolding insert_by
    filter_by-insert_by x [] = refl
    filter_by-insert_by x (y ∷ ys) = ground (arith, alike y x, filter_by-insert_by x ys)

    pub filter_by-sort_stable : (xs : List A) → filter_by p (sort_stable xs) ≡ filter_by p xs
    unfolding sort_stable
    filter_by-sort_stable [] = refl
    filter_by-sort_stable (x ∷ xs) =
        ground (arith, filter_by-insert_by x (sort_stable xs), filter_by-sort_stable xs)

-- What makes a test an order, up to elements that neither is below the other.
pub record IsWeakOrder {ℓ} {A : Type ℓ} (less : A → A → Bool) : Type ℓ where
  pub asym : (a b : A) → less a b ≡ true → less b a ≡ false
  pub neg_trans : (a b c : A) → less b a ≡ false → less c b ≡ false → less c a ≡ false

module _ {ℓ} {A : Type ℓ} (less : A → A → Bool) (o : IsWeakOrder less) where
  above-All :
      (x y : A) (ys : List A)
      → less y x ≡ false
      → All (λ z. less z y ≡ false) ys
      → All (λ z. less z x ≡ false) ys
  above-All x y [] h hs = tt
  above-All x y (z ∷ ys) h (k, hs) = (o.neg_trans x y z h k, above-All x y ys h hs)

  pub insert_by-IsSorted :
      (x : A) (ys : List A) → IsSorted less ys → IsSorted less (insert_by less x ys)
  unfolding insert_by
  insert_by-IsSorted x [] s = (tt, tt)
  insert_by-IsSorted x (y ∷ ys) (h, s) = elim (Bool-cases (less y x)) [
    | inl e ↦ rw e (
      All-insert_by less (λ z. less z y ≡ false) x ys (o.asym y x e) h,
      insert_by-IsSorted x ys s,
    )
    | inr e ↦ rw e ((e, above-All x y ys e h), (h, s))
  ]

  pub sort_stable-IsSorted : (xs : List A) → IsSorted less (sort_stable less xs)
  unfolding sort_stable
  sort_stable-IsSorted [] = tt
  sort_stable-IsSorted (x ∷ xs) =
      insert_by-IsSorted x (sort_stable less xs) (sort_stable-IsSorted xs)
