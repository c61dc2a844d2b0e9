-- ===== src/HostList/Sort/Stable.antt =====
-- The order of list files is a strict weak order.
use trollbridge.Prelude.{
  ◌≡◌, refl, Bool, true, false, not, List, [], ◌∷◌, Option, none, some, arith, ◌==◌, nat_eq,
  list_eq, eq_iff, if◌then◌else◌, Bool-cases, inl, inr,
}
use trollbridge.Prelude.Int.{ltb_ℤ, int_eq}
use trollbridge.Prelude.Sort.{IsWeakOrder}
use trollbridge.Text.{Text, lt_text, trim_space}
use trollbridge.Text.Laws.{lt_text-asym, lt_text-total, lt_text_trans}
use trollbridge.HostList.Sort.{Label, SortKey, less_labels, less, entry_less, key_for}

labels-asym : (xs ys : List Label) → less_labels xs ys ≡ some true → less_labels ys xs ≡ some false
unfolding less_labels
labels-asym [] [] h = ground (arith, h)
labels-asym [] (y ∷ ys) h = refl
labels-asym (x ∷ xs) [] h = ground (arith, h)
labels-asym ((a, af) ∷ xs) ((b, bf) ∷ ys) h =
    ground (arith, h, labels-asym xs ys, lt_text-asym a b, eq_iff a b, eq_iff b a)

labels-same : (xs ys : List Label) → less_labels xs ys ≡ none → less_labels ys xs ≡ none
unfolding less_labels
labels-same [] [] h = refl
labels-same [] (y ∷ ys) h = ground (arith, h)
labels-same (x ∷ xs) [] h = ground (arith, h)
labels-same ((a, af) ∷ xs) ((b, bf) ∷ ys) h =
    ground (arith, h, labels-same xs ys, eq_iff a b, eq_iff b a)

-- Not after, and not after: not after. `some false` reversed is what is left of a comparison.
abbrev at_most : Option Bool → Bool
at_most none = true
at_most (some b) = not b

abbrev is_none : Option Bool → Bool
is_none none = true
is_none (some b) = false

labels_trans :
    (xs ys zs : List Label)
    → at_most (less_labels ys xs) ≡ true
    → at_most (less_labels zs ys) ≡ true
    → (at_most (less_labels zs xs) ≡ true)
      × (less_labels zs xs ≡ none → (less_labels ys xs ≡ none) × (less_labels zs ys ≡ none))
unfolding less_labels
labels_trans [] [] [] h k = (refl, λ e. (refl, refl))
labels_trans [] [] (z ∷ zs) h k = ground arith
labels_trans [] (y ∷ ys) [] h k = ground (arith, k)
labels_trans [] (y ∷ ys) (z ∷ zs) h k = (refl, λ e. cc)
labels_trans (x ∷ xs) [] zs h k = ground (arith, h)
labels_trans (x ∷ xs) (y ∷ ys) [] h k = ground (arith, k)
labels_trans ((a, af) ∷ xs) ((b, bf) ∷ ys) ((c, cf) ∷ zs) h k = ground (
  arith,
  h,
  k,
  labels_trans xs ys zs,
  lt_text_trans a b c,
  lt_text-total a b,
  lt_text-total b c,
  eq_iff a b,
  eq_iff b c,
  eq_iff c a,
  eq_iff b a,
  eq_iff c b,
)

-- The rest of the comparison, once the labels are the same.
abbrev tail_less : SortKey → SortKey → Text → Text → Bool
tail_less a b r s =
    if not (a.port == b.port)
    then ltb_ℤ a.port b.port
    else if not (a.path_str == b.path_str)
    then lt_text a.path_str b.path_str
    else lt_text r s

tail-asym : (a b : SortKey) (r s : Text) → tail_less a b r s ≡ true → tail_less b a s r ≡ false
tail-asym a b r s h = elim (Bool-cases (a.port == b.port)) [
  | inl e ↦ ground (
    arith,
    h,
    e,
    eq_iff a.path_str b.path_str,
    eq_iff b.path_str a.path_str,
    eq_iff b.port a.port,
    eq_iff a.port b.port,
    lt_text-asym a.path_str b.path_str,
    lt_text-asym r s,
  )
  | inr e ↦ ground (arith, h, e)
]

tail_trans :
    (a b c : SortKey) (r s t : Text)
    → tail_less b a s r ≡ false
    → tail_less c b t s ≡ false
    → tail_less c a t r ≡ false
tail_trans a b c r s t h k = ground (
  arith,
  h,
  k,
  eq_iff a.path_str b.path_str,
  eq_iff b.path_str c.path_str,
  eq_iff c.path_str a.path_str,
  eq_iff b.path_str a.path_str,
  eq_iff c.path_str b.path_str,
  eq_iff b.port a.port,
  eq_iff c.port b.port,
  eq_iff c.port a.port,
  lt_text_trans a.path_str b.path_str c.path_str,
  lt_text-total a.path_str b.path_str,
  lt_text-total b.path_str c.path_str,
  lt_text_trans r s t,
)

less-asym : (a b : SortKey) (r s : Text) → less a b r s ≡ true → less b a s r ≡ false
unfolding less
less-asym a b r s h = ground (
  arith,
  h,
  labels-asym a.host_labels b.host_labels,
  labels-same a.host_labels b.host_labels,
  tail-asym a b r s,
)

less_trans :
    (a b c : SortKey) (r s t : Text)
    → less b a s r ≡ false
    → less c b t s ≡ false
    → less c a t r ≡ false
unfolding less
less_trans a b c r s t h k =
    ground
      (arith, h, k, labels_trans a.host_labels b.host_labels c.host_labels, tail_trans a b c r s t)

pub entry_less-IsWeakOrder : IsWeakOrder entry_less
unfolding entry_less
entry_less-IsWeakOrder = record {
  asym = λ a b h. less-asym (key_for (trim_space a)) (key_for (trim_space b)) a b h;
  neg_trans = λ a b c h k.
      less_trans (key_for (trim_space a)) (key_for (trim_space b)) (key_for (trim_space c)) a b c h
        k;
}
