-- ===== src/Approvals/Store/Lemmas.antt =====
-- The two indexes stay in step: what that means, and that taking a hold off both keeps it.
use trollbridge.Prelude.{
  ℕ, ◌≡◌, refl, sym, ◌∙◌, ◌≢◌, ◌<◌, inl, inr, Bool, true, false, not, ◌&&◌, ◌||◌, is_some, List, [],
  ◌∷◌, Option, none, some, arith, ◌==◌, nat_eq, list_eq, eq_iff, if◌then◌else◌, Option-cases,
}
use trollbridge.Prelude.Maps.{
  update, lookup, lookup-delete-some, lookup-delete_ne, update-ne, update-cases,
}
use trollbridge.Text.{Text}
use trollbridge.Types.{Decision}
use trollbridge.Approvals.Store.{Channel, Hold, Queue, broadcast, evict, live}

-- An entry of the first index names an unresolved hold of that id, which the second index has too.
abbrev pub ItemFits : Queue → Text → ℕ → Type 0
ItemFits q id a =
    (h : Hold) × (q.holds a ≡ some h)
    × (h.id ≡ id)
    × (h.resolved ≡ false)
    × (lookup h.dedup_key q.by_key ≡ some a)

-- An entry of the second index names a hold of that key, which the first index has too.
abbrev pub KeyFits : Queue → Text → ℕ → Type 0
KeyFits q k a =
    (h : Hold) × (q.holds a ≡ some h) × (h.dedup_key ≡ k) × (lookup h.id q.items ≡ some a)

pub record IsIndexed (q : Queue) : Type 0 where
  pub items_fit : (id : Text) (a : ℕ) → lookup id q.items ≡ some a → ItemFits q id a
  pub keys_fit : (k : Text) (a : ℕ) → lookup k q.by_key ≡ some a → KeyFits q k a
  pub allocated : (a : ℕ) (h : Hold) → q.holds a ≡ some h → a < q.next_hold

pub live-cases :
    (id : Text) (q : Queue) {a : ℕ} {h : Hold}
    → live id q ≡ some (a, h)
    → (lookup id q.items ≡ some a) × (q.holds a ≡ some h) × (h.resolved ≡ false)
unfolding live
live-cases id q {a} {h} e = ground arith

-- With the indexes in step an id is live exactly if the first index has it.
pub live-none : (id : Text) (q : Queue) → IsIndexed q → live id q ≡ none → lookup id q.items ≡ none
unfolding live
live-none id q v e = elim (Option-cases (lookup id q.items)) [
  | inl none_there ↦ none_there
  | inr (a, there) ↦ let (h, s, _, r, _) = v.items_fit id a there in ground (arith, there, s, r)
]

-- Two entries of the first index with the same key are the same entry.
pub same_key :
    (q : Queue)
    → IsIndexed q
    → (i j : Text) (a b : ℕ) (g h : Hold) → lookup i q.items ≡ some a
    → lookup j q.items ≡ some b
    → q.holds a ≡ some g
    → q.holds b ≡ some h
    → g.dedup_key ≡ h.dedup_key
    → (i ≡ j) × (a ≡ b)
same_key q v i j a b g h p r s t k =
    let (g', s', gi, _, gk) = v.items_fit i a p in
    let (h', t', hj, _, hk) = v.items_fit j b r in
    let eg : g' ≡ g = cc in
    let eh : h' ≡ h = cc in
    let same : a ≡ b = ground (arith, gk, hk, k, eg, eh) in
    (ground (arith, same, gi, hj, eg, eh, s, t), same)

pub evict-IsIndexed :
    (id : Text) (a : ℕ) (h h' : Hold) (q : Queue)
    → IsIndexed q
    → lookup id q.items ≡ some a
    → q.holds a ≡ some h
    → h'.dedup_key ≡ h.dedup_key
    → IsIndexed (evict id a h' q)
unfolding evict
evict-IsIndexed id a h h' q v p s k = record {
  items_fit = λ j b r.
      let (ne, r') = lookup-delete-some id j q.items r in
      let (g, t, gi, gr, gk) = v.items_fit j b r' in
      let apart : a ≢ b = λ e. ne (evict_same j b g e t gi) in
      (
        g,
        update-ne q.holds a b _ apart ∙ t,
        gi,
        gr,
        lookup-delete_ne h'.dedup_key g.dedup_key q.by_key
              (λ e. apart ((same_key q v id j a b h g p r' s t (sym k ∙ e)).1))
            ∙ gk,
      );
  keys_fit = λ key b r.
      let (ne, r') = lookup-delete-some h'.dedup_key key q.by_key r in
      let (g, t, gk, gi) = v.keys_fit key b r' in
      let apart : a ≢ b = λ e. ground (arith, ne, k, gk, s, t, e) in
      (
        g,
        update-ne q.holds a b _ apart ∙ t,
        gk,
        lookup-delete_ne id g.id q.items (λ e. ground (arith, apart, p, gi, e)) ∙ gi,
      );
  allocated = λ b g t. elim (update-cases q.holds a b (some (record h' { resolved = true })) t) [
    | inl (e, _) ↦ ground (arith, v.allocated a h s, e)
    | inr (_, t') ↦ v.allocated b g t'
  ];
}
  where
    evict_same : (j : Text) (b : ℕ) (g : Hold) → a ≡ b → q.holds b ≡ some g → g.id ≡ j → id ≡ j
    evict_same j b g e t gi =
        let (f, u, fi, _, _) = v.items_fit id a p in ground (arith, e, t, gi, u, fi)

-- The channel is one of the list.
abbrev pub has : Channel → List Channel → Bool
has c [] = false
has c (w ∷ ws) = w == c || has c ws

-- A broadcast fills the empty channels among the waiters, and no other.
pub broadcast-has :
    (ws : List Channel) (d : Decision) (sent : Channel → Option Decision) (c : Channel)
    → broadcast ws d sent c ≡ (if has c ws && not (is_some (sent c)) then some d else sent c)
unfolding broadcast
broadcast-has [] d sent c = refl
broadcast-has (w ∷ ws) d sent c = elim (Option-cases (sent w)) [
  | inl e ↦
      rw (e, broadcast)
        (broadcast-has ws d (update sent w (some d)) c ∙ ground (arith, e, eq_iff w c))
  | inr (x, e) ↦ rw (e, broadcast) (broadcast-has ws d sent c ∙ ground (arith, e, eq_iff w c))
]

-- The waiters of a live hold have empty channels of their own.
pub record IsWaiting (q : Queue) : Type 0 where
  pub idle :
      (id : Text) (a : ℕ) (h : Hold) (c : Channel)
      → lookup id q.items ≡ some a
      → q.holds a ≡ some h
      → has c h.waiters ≡ true
      → (q.sent c ≡ none) × (c < q.next_channel)
  pub apart :
      (i j : Text) (a b : ℕ) (g h : Hold) (c : Channel)
      → lookup i q.items ≡ some a
      → lookup j q.items ≡ some b
      → q.holds a ≡ some g
      → q.holds b ≡ some h
      → has c g.waiters ≡ true
      → has c h.waiters ≡ true
      → a ≡ b
