-- ===== src/Opstream/Invariant.antt =====
-- internal/opstream/opstream.go: each operation on a well-formed ring.
use mathlib.Core.Path.{subst}
use trollbridge.Prelude.{
  ℕ, ◌≡◌, ◌≤◌, ◌<◌, refl, ◌∙◌, inl, inr, List, [], ◌∷◌, none, some, arith, leb, leb→le, ◌==◌,
  nat_eq, list_eq, eq_iff, Option-cases, Bool-cases, length, length-append,
}
use trollbridge.Prelude.Int.{ℤ}
use trollbridge.Prelude.Maps.{
  lookup, insert, delete, lookup-insert, lookup-delete, lookup-insert-some, lookup-delete-some,
}
use trollbridge.Text.{Text}
use trollbridge.Opstream.Ring.{
  Op, Ring, new_ring, evict_oldest, append_op, fresh_op, begin, hold_pending, rename_first,
  relabelled, rebind, resolve,
}
use trollbridge.Opstream.Steps.{
  IsDistinct, IsRing, Step, begins, holds, rebinds, resolves, Reach, here, next, mem-append,
  append-IsDistinct, length-rename_first, mem-rename_first, rename_first-IsDistinct,
}

new-IsRing : (cap : ℤ) → IsRing (new_ring cap)
unfolding new_ring lookup
new-IsRing cap = record {
  room = ground arith;
  bounded = omega arith;
  distinct = tt;
  listed = λ id. refl;
  named = λ id op e. cc;
}

-- A row changes, and keeps its id.
put-IsRing :
    (id : Text) (op op' : Op) (r : Ring)
    → IsRing r
    → lookup id r.items ≡ some op
    → op'.request_id ≡ op.request_id
    → IsRing (record r { items = insert id op' r.items })
put-IsRing id op op' r v p same = record {
  room = v.room;
  bounded = v.bounded;
  distinct = v.distinct;
  listed = λ j. ground (arith, v.listed j, lookup-insert id j op' r.items, eq_iff id j, p);
  named = λ j o e. elim (lookup-insert-some id j op' r.items e) [
    | inl (q, e') ↦ ground (arith, q, e', same, v.named id op p)
    | inr (_, e') ↦ v.named j o e'
  ];
}

evict_oldest-IsRing :
    (r : Ring)
    → IsRing r
    → r.cap ≤ length r.order
    → IsRing (evict_oldest r) × (length (evict_oldest r).order < (evict_oldest r).cap)
unfolding evict_oldest
evict_oldest-IsRing r v full = go r.order refl
  where
    go :
        (order : List Text)
        → r.order ≡ order
        → IsRing (evict_oldest r) × (length (evict_oldest r).order < (evict_oldest r).cap)
    go [] e = absurd (ground (arith, e, full, v.room))
    go (oldest ∷ rest) e =
        let (a, d) = subst IsDistinct e v.distinct in
        rw (e, evict_oldest)
          (
            record {
              room = v.room;
              bounded = ground (arith, v.bounded, e);
              distinct = d;
              listed = λ j.
                  ground (arith, v.listed j, e, a, lookup-delete oldest j r.items, eq_iff oldest j);
              named = λ j o q. v.named j o (lookup-delete-some oldest j r.items q).1;
            },
            ground (arith, v.bounded, e),
          )

append_op-IsRing :
    (op : Op) (r : Ring)
    → IsRing r
    → length r.order < r.cap
    → lookup op.request_id r.items ≡ none
    → IsRing (append_op op r)
unfolding append_op
append_op-IsRing op r v space fresh = record {
  room = v.room;
  bounded = omega (arith, length-append r.order (op.request_id ∷ []), space);
  distinct =
      append-IsDistinct op.request_id r.order (ground (arith, v.listed op.request_id, fresh))
        v.distinct;
  listed = λ j. ground (
    arith,
    v.listed j,
    mem-append j op.request_id r.order,
    lookup-insert op.request_id j op r.items,
  );
  named = λ j o e. elim (lookup-insert-some op.request_id j op r.items e) [
    | inl (q, e') ↦ ground (arith, q, e')
    | inr (_, e') ↦ v.named j o e'
  ];
}

module _ (r : Ring) (v : IsRing r) where
  evict_oldest-lookup :
      (id : Text) → lookup id r.items ≡ none → lookup id (evict_oldest r).items ≡ none
  unfolding evict_oldest
  evict_oldest-lookup id e = go r.order refl
    where
      go : (order : List Text) → r.order ≡ order → lookup id (evict_oldest r).items ≡ none
      go [] q = rw (q, evict_oldest) e
      go (oldest ∷ rest) q =
          rw (q, evict_oldest) (ground (arith, lookup-delete oldest id r.items, e))

  begin-IsRing : (now : ℕ) (id method url : Text) → IsRing (begin now id method url r)
  unfolding begin fresh_op
  begin-IsRing now id method url = elim (Option-cases (lookup id r.items)) [
    | inr (op, e) ↦ rw (e, begin) (put-IsRing id op (record op { updated_at = now }) r v e refl)
    | inl e ↦ elim (Bool-cases (leb r.cap (length r.order))) [
      | inl full ↦
          let (w, space) = evict_oldest-IsRing r v (leb→le r.cap (length r.order) full) in
          rw (e, begin)
            (rw full (
              append_op-IsRing (fresh_op now id method url) (evict_oldest r) w space
                (evict_oldest-lookup id e)))
      | inr spare ↦
          rw (e, begin)
            (rw spare (append_op-IsRing (fresh_op now id method url) r v (ground (arith, spare)) e))
    ]
  ]

  hold_pending-IsRing : (now : ℕ) (id hold_id : Text) → IsRing (hold_pending now id hold_id r)
  unfolding hold_pending
  hold_pending-IsRing now id hold_id = elim (Option-cases (lookup id r.items)) [
    | inl e ↦ rw (e, hold_pending) v
    | inr (op, e) ↦ rw (e, hold_pending) (put-IsRing id op _ r v e refl)
  ]

  resolve-IsRing :
      (now : ℕ) (id status : Text) (latency size : ℤ)
      → IsRing (resolve now id status latency size r)
  unfolding resolve
  resolve-IsRing now id status latency size = elim (Option-cases (lookup id r.items)) [
    | inl e ↦ rw (e, resolve) v
    | inr (op, e) ↦ rw (e, resolve) (put-IsRing id op _ r v e refl)
  ]

  renamed-IsRing :
      (old new : Text) (op op' : Op)
      → lookup old r.items ≡ some op
      → lookup new r.items ≡ none
      → op'.request_id ≡ new
      → IsRing (record r {
        items = insert new op' (delete old r.items);
        order = rename_first old new r.order;
      })
  renamed-IsRing old new op op' p fresh named = record {
    room = v.room;
    bounded = ground (arith, length-rename_first old new r.order, v.bounded);
    distinct =
        rename_first-IsDistinct old new r.order v.distinct (ground (arith, v.listed old, p))
          (ground (arith, v.listed new, fresh));
    listed = λ j. ground (
      arith,
      mem-rename_first old new j r.order v.distinct (ground (arith, v.listed old, p)),
      v.listed j,
      lookup-insert new j op' (delete old r.items),
      lookup-delete old j r.items,
    );
    named = λ j o e. elim (lookup-insert-some new j op' (delete old r.items) e) [
      | inl (q, e') ↦ ground (arith, q, e', named)
      | inr (_, e') ↦ v.named j o (lookup-delete-some old j r.items e').1
    ];
  }

  rebind-IsRing : (now : ℕ) (old new method url : Text) → IsRing (rebind now old new method url r).1
  unfolding rebind relabelled
  rebind-IsRing now old new method url = elim (Option-cases (lookup old r.items)) [
    | inl e ↦ rw (e, rebind) v
    | inr (op, e) ↦ elim (Bool-cases (old == new)) [
      | inl same ↦ rw (e, rebind) (rw same (put-IsRing old op _ r v e refl))
      | inr differs ↦ elim (Option-cases (lookup new r.items)) [
        | inr (other, clash) ↦ rw (e, rebind) (rw differs (rw clash v))
        | inl fresh ↦
            rw (e, rebind) (rw differs (rw fresh (renamed-IsRing old new op _ e fresh refl)))
      ]
    ]
  ]

Step-IsRing : {r s : Ring} → Step r s → IsRing r → IsRing s
Step-IsRing (begins {r} now id method url) v = begin-IsRing r v now id method url
Step-IsRing (holds {r} now id hold_id) v = hold_pending-IsRing r v now id hold_id
Step-IsRing (rebinds {r} now old new method url) v = rebind-IsRing r v now old new method url
Step-IsRing (resolves {r} now id status latency size) v =
    resolve-IsRing r v now id status latency size

Step-cap : {r s : Ring} → Step r s → s.cap ≡ r.cap
unfolding begin append_op evict_oldest hold_pending rebind resolve
Step-cap (begins {r} now id method url) = ground arith
Step-cap (holds {r} now id hold_id) = ground arith
Step-cap (rebinds {r} now old new method url) = ground arith
Step-cap (resolves {r} now id status latency size) = ground arith

-- Every ring that any sequence of operations makes of a new one keeps the capacity it was made with,
-- lists at most that many operations, each once, and its map holds an operation under an id exactly
-- if the order lists the id, with that id in its row.
pub Reach-IsRing :
    (cap : ℤ) (r : Ring) → Reach (new_ring cap) r → IsRing r × (r.cap ≡ (new_ring cap).cap)
Reach-IsRing cap r here = (new-IsRing cap, refl)
Reach-IsRing cap r (next {s} p step) =
    let (v, same) = Reach-IsRing cap s p in (Step-IsRing step v, Step-cap step ∙ same)
