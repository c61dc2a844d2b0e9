-- ===== src/Approvals/Invariant/Waiters.antt =====
-- Every operation keeps the channels of the live holds empty and apart.
use trollbridge.Prelude.{
  ℕ, suc, ◌≡◌, refl, sym, ap, ◌∙◌, ◌≢◌, ◌<◌, ◌⊎◌, inl, inr, true, false, ◌||◌, List, [], ◌∷◌, ◌++◌,
  Option, none, some, arith, nat_eq, list_eq, eq_iff, Bool-cases,
}
use trollbridge.Prelude.Maps.{
  update, lookup, lookup-insert-some, lookup-delete-some, update-cases, update-ne,
}
use trollbridge.Text.{Text}
use trollbridge.Types.{RequestEvent, Decision}
use trollbridge.Approvals.Store.{Channel, Hold, Queue, evict}
use trollbridge.Approvals.Store.Lemmas.{IsIndexed, IsWaiting, has, broadcast-has}
use trollbridge.Approvals.Enqueue.{attach, mint}
use trollbridge.Approvals.Resolve.{deliver, remove_first}

pub has-append : (c : Channel) (xs ys : List Channel) → has c (xs ++ ys) ≡ (has c xs || has c ys)
has-append c [] ys = refl
has-append c (x ∷ xs) ys = ground (arith, has-append c xs ys)

pub has-remove_first :
    (c x : Channel) (ws : List Channel) → has c (remove_first x ws) ≡ true → has c ws ≡ true
unfolding remove_first
has-remove_first c x [] h = h
has-remove_first c x (w ∷ ws) h = ground (arith, has-remove_first c x ws)

-- A hold taken off the indexes and served leaves the others' channels alone.
pub taken-IsWaiting :
    (id : Text) (a : ℕ) (h h' : Hold) (d : Decision) (q : Queue)
    → IsWaiting q
    → IsIndexed q
    → lookup id q.items ≡ some a
    → q.holds a ≡ some h
    → h'.waiters ≡ h.waiters
    → IsWaiting (deliver h' d (evict id a h' q))
unfolding deliver evict
taken-IsWaiting id a h h' d q v x p s ws = record {
  idle = λ j b g c r t m.
      let (ne, r') = lookup-delete-some id j q.items r in
      let (f, u, fj, _, _) = x.items_fit j b r' in
      let away : a ≢ b = λ e. ne (same_id j b f e u fj) in
      let t' = sym (update-ne q.holds a b _ away) ∙ t in
      let (free, low) = v.idle j b g c r' t' m in
      let strange : has c h'.waiters ≡ false = not_waiting j b g c r' t' m away in
      (broadcast-has h'.waiters d q.sent c ∙ ground (arith, strange, free), low);
  apart = λ i j b b' g g' c r r' t t' m m'.
      let (ne, rᵢ) = lookup-delete-some id i q.items r in
      let (ne', rⱼ) = lookup-delete-some id j q.items r' in
      let (f, u, fi, _, _) = x.items_fit i b rᵢ in
      let (f', u', fj, _, _) = x.items_fit j b' rⱼ in
      v.apart i j b b' g g' c rᵢ rⱼ
        (sym (update-ne q.holds a b _ (λ e. ne (same_id i b f e u fi))) ∙ t)
        (sym (update-ne q.holds a b' _ (λ e. ne' (same_id j b' f' e u' fj))) ∙ t') m m';
}
  where
    same_id : (j : Text) (b : ℕ) (g : Hold) → a ≡ b → q.holds b ≡ some g → g.id ≡ j → id ≡ j
    same_id j b g e t gi =
        let (f, u, fi, _, _) = x.items_fit id a p in ground (arith, e, t, gi, u, fi)

    not_waiting :
        (j : Text) (b : ℕ) (g : Hold) (c : Channel)
        → lookup j q.items ≡ some b
        → q.holds b ≡ some g
        → has c g.waiters ≡ true
        → a ≢ b
        → has c h'.waiters ≡ false
    not_waiting j b g c r t m ne = elim (Bool-cases (has c h'.waiters)) [
      | inl e ↦ absurd (ne (v.apart id j a b h g c p r s t (ap (has c) (sym ws) ∙ e) m))
      | inr e ↦ e
    ]

-- A hold taken off the indexes with nothing sent.
pub evicted-IsWaiting :
    (id : Text) (a : ℕ) (h h' : Hold) (q : Queue)
    → IsWaiting q
    → IsIndexed q
    → lookup id q.items ≡ some a
    → q.holds a ≡ some h
    → IsWaiting (evict id a h' q)
unfolding evict
evicted-IsWaiting id a h h' q v x p s = record {
  idle = λ j b g c r t m.
      let (ne, r') = lookup-delete-some id j q.items r in
      v.idle j b g c r' (sym (update-ne q.holds a b _ (away j b ne r')) ∙ t) m;
  apart = λ i j b b' g g' c r r' t t' m m'.
      let (ne, rᵢ) = lookup-delete-some id i q.items r in
      let (ne', rⱼ) = lookup-delete-some id j q.items r' in
      v.apart i j b b' g g' c rᵢ rⱼ (sym (update-ne q.holds a b _ (away i b ne rᵢ)) ∙ t)
        (sym (update-ne q.holds a b' _ (away j b' ne' rⱼ)) ∙ t') m m';
}
  where
    away : (j : Text) (b : ℕ) → id ≢ j → lookup j q.items ≡ some b → a ≢ b
    away j b ne r e =
        let (f, u, fi, _, _) = x.items_fit id a p in
        let (g, t, gj, _, _) = x.items_fit j b r in ne (ground (arith, e, t, gj, u, fi))

-- A live hold keeps some of its waiters.
pub shrink-IsWaiting :
    (id : Text) (a : ℕ) (h : Hold) (x : Channel) (q : Queue)
    → IsWaiting q
    → q.holds a ≡ some h
    → IsWaiting (record q {
      holds = update q.holds a (some (record h { waiters = remove_first x h.waiters }));
    })
shrink-IsWaiting id a h x q v s = record {
  idle = λ j b g c r t m. let (g', t', m') = before b g c t m in v.idle j b g' c r t' m';
  apart = λ i j b b' g g' c r r' t t' m m'.
      let (f, u, n) = before b g c t m in
      let (f', u', n') = before b' g' c t' m' in v.apart i j b b' f f' c r r' u u' n n';
}
  where
    before :
        (b : ℕ) (g : Hold) (c : Channel)
        → update q.holds a (some (record h { waiters = remove_first x h.waiters })) b ≡ some g
        → has c g.waiters ≡ true
        → (g' : Hold) × (q.holds b ≡ some g') × (has c g'.waiters ≡ true)
    before b g c t m = elim (update-cases q.holds a b _ t) [
      | inl (e, e') ↦
          (h, ground (arith, e, s), has-remove_first c x h.waiters (ground (arith, e', m)))
      | inr (_, t') ↦ (g, t', m)
    ]

-- A queue whose holds have the old waiters, and one of them the next channel too.
abbrev Adds : Queue → Queue → ℕ → Type 0
Adds q q' a =
    (j : Text) (b : ℕ) (g : Hold) (c : Channel)
    → lookup j q'.items ≡ some b
    → q'.holds b ≡ some g
    → has c g.waiters ≡ true
    → ((g' : Hold) × (lookup j q.items ≡ some b)
        × (q.holds b ≡ some g')
        × (has c g'.waiters ≡ true))
      ⊎ ((a ≡ b) × (c ≡ q.next_channel))

added-IsWaiting :
    (q q' : Queue) (a : ℕ)
    → IsWaiting q
    → Adds q q' a
    → q'.sent ≡ update q.sent q.next_channel none
    → q'.next_channel ≡ suc q.next_channel
    → IsWaiting q'
added-IsWaiting q q' a v adds sent next = record {
  idle = λ j b g c r t m. elim (adds j b g c r t m) [
    | inl (g', r', t', m') ↦
        let (free, low) = v.idle j b g' c r' t' m' in
        (
          ap (λ (f : Channel → Option Decision). f c) sent ∙ ground (arith, free),
          omega (arith, next, low),
        )
    | inr (_, e) ↦ (
      ap (λ (f : Channel → Option Decision). f c) sent ∙ ground (arith, e),
      omega (arith, e, next),
    )
  ];
  apart = λ i j b b' g g' c r r' t t' m m'.
      both i j b b' c (λ f p u n f' p' u' n'. v.apart i j b b' f f' c p p' u u' n n')
        (λ f p u n. v.idle i b f c p u n) (λ f p u n. v.idle j b' f c p u n) (adds i b g c r t m)
        (adds j b' g' c r' t' m');
}
  where
    both :
        (i j : Text) (b b' : ℕ) (c : Channel)
        → ((f : Hold)
            → lookup i q.items ≡ some b
            → q.holds b ≡ some f
            → has c f.waiters ≡ true
            → (f' : Hold) → lookup j q.items ≡ some b'
            → q.holds b' ≡ some f'
            → has c f'.waiters ≡ true
            → b ≡ b')
        → ((f : Hold)
            → lookup i q.items ≡ some b
            → q.holds b ≡ some f
            → has c f.waiters ≡ true
            → (q.sent c ≡ none) × (c < q.next_channel))
        → ((f : Hold)
            → lookup j q.items ≡ some b'
            → q.holds b' ≡ some f
            → has c f.waiters ≡ true
            → (q.sent c ≡ none) × (c < q.next_channel))
        → ((f : Hold) × (lookup i q.items ≡ some b)
            × (q.holds b ≡ some f)
            × (has c f.waiters ≡ true))
          ⊎ ((a ≡ b) × (c ≡ q.next_channel))
        → ((f : Hold) × (lookup j q.items ≡ some b')
            × (q.holds b' ≡ some f)
            × (has c f.waiters ≡ true))
          ⊎ ((a ≡ b') × (c ≡ q.next_channel))
        → b ≡ b'
    both i j b b' c old low low' (inl (f, p, u, n)) (inl (f', p', u', n')) = old f p u n f' p' u' n'
    both i j b b' c old low low' (inl (f, p, u, n)) (inr (_, e)) =
        absurd (omega (arith, (low f p u n).1, e))
    both i j b b' c old low low' (inr (_, e)) (inl (f, p, u, n)) =
        absurd (omega (arith, (low' f p u n).1, e))
    both i j b b' c old low low' (inr (e, _)) (inr (e', _)) = sym e ∙ e'

pub attach-IsWaiting :
    (a : ℕ) (h : Hold) (q : Queue) → IsWaiting q → q.holds a ≡ some h → IsWaiting (attach a h q)
unfolding attach
attach-IsWaiting a h q v s = added-IsWaiting q _ a v adds refl refl
  where
    adds : Adds q (attach a h q) a
    adds j b g c r t m = elim (update-cases q.holds a b _ t) [
      | inr (_, t') ↦ inl (g, r, t', m)
      | inl (e, e') ↦ elim (Bool-cases (has c h.waiters)) [
        | inl old ↦ inl (h, r, ap q.holds (sym e) ∙ s, old)
        | inr other ↦ inr (
          e,
          ground (
            arith,
            e',
            m,
            other,
            has-append c h.waiters (q.next_channel ∷ []),
            eq_iff q.next_channel c,
          ),
        )
      ]
    ]

pub mint-IsWaiting :
    (id : Text) (now : ℕ) (req : RequestEvent) (base : Decision) (q : Queue)
    → IsWaiting q
    → IsIndexed q
    → IsWaiting (mint id now req base q)
unfolding mint
mint-IsWaiting id now req base q v x = added-IsWaiting q _ q.next_hold v adds refl refl
  where
    adds : Adds q (mint id now req base q) q.next_hold
    adds j b g c r t m = elim (update-cases q.holds q.next_hold b _ t) [
      | inl (e, e') ↦ inr (e, ground (arith, e', m, eq_iff q.next_channel c))
      | inr (ne, t') ↦ elim (lookup-insert-some id j q.next_hold q.items r) [
        | inl (_, e) ↦ absurd (ne e)
        | inr (_, r') ↦ inl (g, r', t', m)
      ]
    ]
