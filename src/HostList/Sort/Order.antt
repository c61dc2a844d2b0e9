-- ===== src/HostList/Sort/Order.antt =====
-- The order of list files, from its comment in sort.go: the labels of the host from the last, with a
-- wildcard after every literal label, then the port, the path, and the line itself.
use trollbridge.Prelude.{
  ◌≡◌, ◌⊎◌, refl, true, false, List, [], ◌∷◌, some, none, arith, All, ◌==◌, nat_eq, list_eq, eq_iff,
}
use trollbridge.Prelude.Int.{ℤ, ltb_ℤ, int_eq}
use trollbridge.Prelude.Sort.{IsSorted}
use trollbridge.Text.{Text, lt_text, trim_space}
use trollbridge.Text.Laws.{lt_text-total}
use trollbridge.HostList.Sort.{Label, SortKey, less_labels, less, entry_less, key_for}

-- The first labels that differ decide, and of two lists that agree up to there the shorter is first.
abbrev pub LabelsBelow : List Label → List Label → Type 0
LabelsBelow xs [] = true ≡ false
LabelsBelow [] (y ∷ ys) = Unit
LabelsBelow ((a, wild_a) ∷ xs) ((b, wild_b) ∷ ys) =
    ((wild_a ≡ false) × (wild_b ≡ true))
    ⊎ (((wild_a ≡ wild_b) × (lt_text a b ≡ true))
        ⊎ ((wild_a ≡ wild_b) × (a ≡ b) × LabelsBelow xs ys))

abbrev pub KeysInOrder : SortKey → SortKey → Text → Text → Type 0
KeysInOrder a b x y =
    LabelsBelow a.host_labels b.host_labels
    ⊎ ((a.host_labels ≡ b.host_labels)
        × ((ltb_ℤ a.port b.port ≡ true)
            ⊎ ((a.port ≡ b.port)
                × ((lt_text a.path_str b.path_str ≡ true)
                    ⊎ ((a.path_str ≡ b.path_str) × (lt_text y x ≡ false))))))

-- The one line may stand in front of the other.
abbrev pub InOrder : Text → Text → Type 0
InOrder x y = KeysInOrder (key_for (trim_space x)) (key_for (trim_space y)) x y

-- No line stands in front of one that belongs before it.
abbrev pub IsInOrder : List Text → Type 0
IsInOrder [] = Unit
IsInOrder (x ∷ xs) = All (InOrder x) xs × IsInOrder xs

labels-below : (xs ys : List Label) → less_labels ys xs ≡ some false → LabelsBelow xs ys
unfolding less_labels
labels-below [] [] h = ground (arith, h)
labels-below (x ∷ xs) [] h = ground (arith, h)
labels-below [] (y ∷ ys) h = tt
labels-below ((a, wild_a) ∷ xs) ((b, wild_b) ∷ ys) h =
    ground
      (arith, h, labels-below xs ys, lt_text-total a b, lt_text-total b a, eq_iff a b, eq_iff b a)

labels-equal : (xs ys : List Label) → less_labels ys xs ≡ none → xs ≡ ys
unfolding less_labels
labels-equal [] [] h = refl
labels-equal (x ∷ xs) [] h = ground (arith, h)
labels-equal [] (y ∷ ys) h = ground (arith, h)
labels-equal ((a, wild_a) ∷ xs) ((b, wild_b) ∷ ys) h =
    ground (arith, h, labels-equal xs ys, eq_iff a b, eq_iff b a)

ports : (a b : ℤ) → ltb_ℤ b a ≡ false → (a == b) ≡ false → ltb_ℤ a b ≡ true
ports a b h k = ground (arith, h, k)

less-InOrder : (a b : SortKey) (x y : Text) → less b a y x ≡ false → KeysInOrder a b x y
unfolding less
less-InOrder a b x y h = ground (
  arith,
  h,
  labels-below a.host_labels b.host_labels,
  labels-equal a.host_labels b.host_labels,
  ports a.port b.port,
  eq_iff a.port b.port,
  eq_iff b.port a.port,
  eq_iff a.path_str b.path_str,
  eq_iff b.path_str a.path_str,
  lt_text-total a.path_str b.path_str,
  lt_text-total b.path_str a.path_str,
)

All-InOrder :
    (x : Text) (xs : List Text) → All (λ y. entry_less y x ≡ false) xs → All (InOrder x) xs
unfolding entry_less
All-InOrder x [] h = tt
All-InOrder x (y ∷ ys) (h, hs) =
    (less-InOrder (key_for (trim_space x)) (key_for (trim_space y)) x y h, All-InOrder x ys hs)

pub sorted-IsInOrder : (xs : List Text) → IsSorted entry_less xs → IsInOrder xs
sorted-IsInOrder [] s = tt
sorted-IsInOrder (x ∷ xs) (h, s) = (All-InOrder x xs h, sorted-IsInOrder xs s)
