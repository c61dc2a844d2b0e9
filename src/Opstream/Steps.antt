-- ===== src/Opstream/Steps.antt =====
-- internal/opstream/opstream.go: the ring as a state machine, and when a ring is well formed.
use trollbridge.Prelude.{
  ℕ, ◌≡◌, ◌≤◌, ◌<◌, refl, inl, inr, Bool, true, false, not, ◌&&◌, ◌||◌, List, [], ◌∷◌, ◌++◌, some,
  is_some, arith, ◌==◌, nat_eq, list_eq, eq_iff, Bool-cases, length,
}
use trollbridge.Prelude.Int.{ℤ}
use trollbridge.Prelude.Maps.{lookup}
use trollbridge.Text.{Text}
use trollbridge.Opstream.Ring.{Op, Ring, begin, hold_pending, rename_first, rebind, resolve}

abbrev pub mem : Text → List Text → Bool
mem id [] = false
mem id (other ∷ ids) = other == id || mem id ids

abbrev pub IsDistinct : List Text → Type 0
IsDistinct [] = Unit
IsDistinct (id ∷ ids) = (mem id ids ≡ false) × IsDistinct ids

-- The map has the ids of the order, each once and under the id that the operation carries.
pub record IsRing (r : Ring) : Type 0 where
  pub room : 0 < r.cap
  pub bounded : length r.order ≤ r.cap
  pub distinct : IsDistinct r.order
  pub listed : (id : Text) → mem id r.order ≡ is_some (lookup id r.items)
  pub named : (id : Text) (op : Op) → lookup id r.items ≡ some op → op.request_id ≡ id

pub data Step : Ring → Ring → Type 0 where
  begins : {r : Ring} (now : ℕ) (id method url : Text) → Step r (begin now id method url r)
  holds : {r : Ring} (now : ℕ) (id hold_id : Text) → Step r (hold_pending now id hold_id r)
  rebinds :
      {r : Ring} (now : ℕ) (old new method url : Text) → Step r (rebind now old new method url r).1
  resolves :
      {r : Ring} (now : ℕ) (id status : Text) (latency size : ℤ)
      → Step r (resolve now id status latency size r)

pub data Reach (r : Ring) : Ring → Type 0 where
  here : Reach r r
  next : {s t : Ring} → Reach r s → Step s t → Reach r t

pub mem-append :
    (id new : Text) (ids : List Text) → mem id (ids ++ new ∷ []) ≡ (mem id ids || new == id)
mem-append id new [] = ground arith
mem-append id new (other ∷ ids) = ground (arith, mem-append id new ids)

pub append-IsDistinct :
    (new : Text) (ids : List Text)
    → mem new ids ≡ false
    → IsDistinct ids
    → IsDistinct (ids ++ new ∷ [])
append-IsDistinct new [] m d = (refl, tt)
append-IsDistinct new (id ∷ ids) m (a, d) = (
  ground (arith, mem-append id new ids, m, a, eq_iff new id, eq_iff id new),
  append-IsDistinct new ids (ground (arith, m)) d,
)

pub length-rename_first :
    (old new : Text) (ids : List Text) → length (rename_first old new ids) ≡ length ids
unfolding rename_first
length-rename_first old new [] = refl
length-rename_first old new (id ∷ ids) = ground (arith, length-rename_first old new ids)

pub mem-rename_first :
    (old new id : Text) (ids : List Text)
    → IsDistinct ids
    → mem old ids ≡ true
    → mem id (rename_first old new ids) ≡ (new == id || (not (old == id) && mem id ids))
unfolding rename_first
mem-rename_first old new id [] d m = cc
mem-rename_first old new id (i ∷ ids) (a, d) m = elim (Bool-cases (i == old)) [
  | inl e ↦ ground (arith, e, eq_iff i old, eq_iff i id, eq_iff old id, a)
  | inr e ↦ ground (
    arith,
    e,
    mem-rename_first old new id ids d (ground (arith, m, e)),
    eq_iff i id,
    eq_iff old id,
    eq_iff i old,
  )
]

pub rename_first-IsDistinct :
    (old new : Text) (ids : List Text)
    → IsDistinct ids
    → mem old ids ≡ true
    → mem new ids ≡ false
    → IsDistinct (rename_first old new ids)
unfolding rename_first
rename_first-IsDistinct old new [] d m n = cc
rename_first-IsDistinct old new (i ∷ ids) (a, d) m n = elim (Bool-cases (i == old)) [
  | inl e ↦ rw (e, rename_first) (ground (arith, n), d)
  | inr e ↦
      rw (e, rename_first)
        (
          ground (
            arith,
            mem-rename_first old new i ids d (ground (arith, m, e)),
            a,
            n,
            eq_iff new i,
            eq_iff i new,
          ),
          rename_first-IsDistinct old new ids d (ground (arith, m, e)) (ground (arith, n)),
        )
]
