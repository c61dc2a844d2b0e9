-- ===== src/Opstream/Snapshot.antt =====
-- internal/opstream/opstream.go: the order of the rows of Snapshot.
use mathlib.Core.Path.{subst}
use mathlib.Core.List.{Perm}
use mathlib.Core.List.Perm
use trollbridge.Prelude.{
  ℕ, ◌≡◌, refl, ap, ◌∙◌, inl, inr, Bool, true, false, List, [], ◌∷◌, ◌++◌, some, is_some, arith,
  ltb, ◌==◌, nat_eq, list_eq, eq_iff, eq_refl, Option-cases, map, All, filter_by,
}
use trollbridge.Prelude.Maps.{lookup}
use trollbridge.Prelude.Sort.{
  IsSorted, IsWeakOrder, insert_by, insert_by-perm, insert_by-IsSorted, filter_by-insert_by,
}
use trollbridge.Text.{Text}
use trollbridge.Opstream.Ring.{
  Op, Ring, rows, sift, sift_all, reversed, sort_by_updated_desc, snapshot,
}
use trollbridge.Opstream.Steps.{mem, IsRing}

abbrev staler : Op → Op → Bool
staler a b = ltb a.updated_at b.updated_at

abbrev pub newer : Op → Op → Bool
newer a b = ltb b.updated_at a.updated_at

staler-IsWeakOrder : IsWeakOrder staler
staler-IsWeakOrder = record {
  asym = λ a b h. ground (arith, h);
  neg_trans = λ a b c h k. ground (arith, h, k);
}

sift-insert_by : (op : Op) (ops : List Op) → sift op ops ≡ insert_by staler op ops
unfolding sift insert_by
sift-insert_by op [] = refl
sift-insert_by op (before ∷ others) = ground (arith, sift-insert_by op others)

sift_all-IsSorted :
    (sorted ops : List Op) → IsSorted staler sorted → IsSorted staler (sift_all sorted ops)
unfolding sift_all
sift_all-IsSorted sorted [] s = s
sift_all-IsSorted sorted (op ∷ ops) s =
    sift_all-IsSorted (sift op sorted) ops
      (rw (sift-insert_by op sorted) (insert_by-IsSorted staler staler-IsWeakOrder op sorted s))

sift_all-perm : (sorted ops : List Op) → Perm (sift_all sorted ops) (reversed ops sorted)
unfolding sift_all reversed
sift_all-perm sorted [] = Perm.refl sorted
sift_all-perm sorted (op ∷ ops) =
    Perm.trans (sift_all-perm (sift op sorted) ops)
      (reversed-perm ops (rw (sift-insert_by op sorted) (insert_by-perm staler op sorted)))
  where
    reversed-perm :
        (xs : List Op) {us vs : List Op} → Perm us vs → Perm (reversed xs us) (reversed xs vs)
    reversed-perm [] p = p
    reversed-perm (x ∷ xs) p = reversed-perm xs (Perm.cons x p)

reversed-IsSorted :
    (xs acc : List Op)
    → IsSorted staler xs
    → IsSorted newer acc
    → All (λ x. All (λ y. newer y x ≡ false) acc) xs
    → IsSorted newer (reversed xs acc)
unfolding reversed
reversed-IsSorted [] acc s t cross = t
reversed-IsSorted (x ∷ xs) acc (h, s) t (k, cross) =
    reversed-IsSorted xs (x ∷ acc) s (k, t) (both xs h cross)
  where
    both :
        (zs : List Op)
        → All (λ z. staler z x ≡ false) zs
        → All (λ z. All (λ y. newer y z ≡ false) acc) zs
        → All (λ z. All (λ y. newer y z ≡ false) (x ∷ acc)) zs
    both [] hs ks = tt
    both (z ∷ zs) (h, hs) (k, ks) = ((h, k), both zs hs ks)

reversed_perm : (xs acc : List Op) → Perm (reversed xs acc) (xs ++ acc)
unfolding reversed
reversed_perm [] acc = Perm.refl acc
reversed_perm (x ∷ xs) acc = Perm.trans (reversed_perm xs (x ∷ acc)) (middle xs)
  where
    middle : (ys : List Op) → Perm (ys ++ (x ∷ acc)) (x ∷ (ys ++ acc))
    middle [] = Perm.refl (x ∷ acc)
    middle (y ∷ ys) = Perm.trans (Perm.cons y (middle ys)) (Perm.swap x y (ys ++ acc))

module _ (t : ℕ) where
  abbrev pub at : Op → Bool
  at op = op.updated_at == t

  filter_by-reversed :
      (xs acc : List Op)
      → filter_by at (reversed xs acc) ≡ reversed (filter_by at xs) (filter_by at acc)
  unfolding reversed
  filter_by-reversed [] acc = refl
  filter_by-reversed (x ∷ xs) acc = ground (arith, filter_by-reversed xs (x ∷ acc))

  filter_by-sift_all :
      (sorted ops : List Op)
      → filter_by at (sift_all sorted ops) ≡ reversed (filter_by at ops) (filter_by at sorted)
  unfolding sift_all reversed
  filter_by-sift_all sorted [] = refl
  filter_by-sift_all sorted (op ∷ ops) = ground (
    arith,
    filter_by-sift_all (sift op sorted) ops,
    sift-insert_by op sorted,
    filter_by-insert_by staler at alike op sorted,
  )
    where
      alike : (a b : Op) → at a ≡ true → at b ≡ true → staler a b ≡ false
      alike a b h k = ground (arith, h, k, eq_iff a.updated_at t, eq_iff b.updated_at t)

reversed_twice : (xs acc ys : List Op) → reversed (reversed xs acc) ys ≡ reversed acc (xs ++ ys)
unfolding reversed
reversed_twice [] acc ys = refl
reversed_twice (x ∷ xs) acc ys = reversed_twice xs (x ∷ acc) ys

append-nil : (xs : List Op) → (xs ++ []) ≡ xs
append-nil [] = refl
append-nil (x ∷ xs) = ap (◌∷◌ x) (append-nil xs)

rows-named :
    (ids : List Text) (items : List (Text × Op))
    → ((id : Text) → mem id ids ≡ true → is_some (lookup id items) ≡ true)
    → ((id : Text) (op : Op) → lookup id items ≡ some op → op.request_id ≡ id)
    → map (λ op. op.request_id) (rows ids items) ≡ ids
unfolding rows
rows-named [] items there named = refl
rows-named (id ∷ ids) items there named = elim (Option-cases (lookup id items)) [
  | inl e ↦ absurd (ground (arith, there id (ground (arith, eq_refl id)), e))
  | inr (op, e) ↦
      rw (e, rows)
        (cons_eq (named id op e) (rows-named ids items (λ j m. there j (ground (arith, m))) named))
]
  where
    cons_eq : {a b : Text} {us vs : List Text} → a ≡ b → us ≡ vs → (a ∷ us) ≡ (b ∷ vs)
    cons_eq p q = cc

-- A snapshot of a well-formed ring shows each row exactly once: its rows are a permutation of the
-- ring's rows, one for each id of the order. No row was updated after one that stands before it, and
-- rows updated at the same time keep the order of the ring.
pub snapshot-rows :
    (r : Ring)
    → IsRing r
    → (map (λ op. op.request_id) (rows r.order r.items) ≡ r.order)
      × Perm (snapshot r) (rows r.order r.items)
      × IsSorted newer (snapshot r)
      × ((t : ℕ)
          → filter_by (λ op. op.updated_at == t) (snapshot r)
            ≡ filter_by (λ op. op.updated_at == t) (rows r.order r.items))
unfolding snapshot sort_by_updated_desc reversed
snapshot-rows r v = (
  rows-named r.order r.items (λ id m. ground (arith, v.listed id, m)) v.named,
  Perm.trans (unreversed (sift_all [] ops)) (Perm.trans (sift_all-perm [] ops) (unreversed ops)),
  reversed-IsSorted (sift_all [] ops) [] (sift_all-IsSorted [] ops tt) tt
      (nothing (sift_all [] ops)),
  λ t.
      filter_by-reversed t (sift_all [] ops) []
      ∙ ap (λ xs. reversed xs []) (filter_by-sift_all t [] ops)
      ∙ reversed_twice (filter_by (at t) ops) [] []
      ∙ append-nil (filter_by (at t) ops),
)
  where
    ops : List Op
    ops = rows r.order r.items

    unreversed : (xs : List Op) → Perm (reversed xs []) xs
    unreversed xs = subst (Perm (reversed xs [])) (append-nil xs) (reversed_perm xs [])

    nothing : (xs : List Op) → All (λ x. All (λ y. newer y x ≡ false) []) xs
    nothing [] = tt
    nothing (x ∷ xs) = (tt, nothing xs)
