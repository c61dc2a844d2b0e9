-- ===== src/Approvals/Wait/Awaited.antt =====
-- internal/approvals/queue.go, Wait: where a waiter stands between its enqueue and its receive, and what
-- the resolvers and the cancellations of others do to it.
use trollbridge.Prelude.{
  ℕ, ◌≡◌, ◌∙◌, ◌≢◌, ◌≤◌, ◌⊎◌, inl, inr, true, List, [], ◌∷◌, Option, some, arith, Option-cases,
  Bool-cases, is_empty, ◌==◌, nat_eq, list_eq, eq_iff,
}
use trollbridge.Prelude.Maps.{
  update, lookup, lookup-delete, lookup-delete_ne, update_self, update-ne,
}
use trollbridge.Text.{Text}
use trollbridge.Types.{RequestEvent, Decision}
use trollbridge.Approvals.Store.{Channel, Hold, Queue, evict, broadcast}
use trollbridge.Approvals.Store.Lemmas.{IsIndexed, has, broadcast-has}
use trollbridge.Approvals.Outcome.Fades.{IsGone, Fades-IsGone, persist-Fades}
use trollbridge.Approvals.Resolve.{remove_first, deliver, persist}

-- The channel is among the waiters of the unresolved hold of the id.
abbrev pub Held : Text → Channel → Queue → Type 0
Held id c q =
    (a : ℕ) × (h : Hold) × (lookup id q.items ≡ some a)
    × (q.holds a ≡ some h)
    × (has c h.waiters ≡ true)

-- The hold is off the queue, and its decision is in the channel.
abbrev pub Answered : Text → Channel → Queue → Type 0
Answered id c q = (d : Decision) × (q.sent c ≡ some d) × IsGone id q

-- What an operation does to a waiter.
pub record Carries (id : Text) (c : Channel) (q r : Queue) : Type 0 where
  pub holds_on : Held id c q → Held id c r ⊎ Answered id c r
  pub sends_on : (d : Decision) → q.sent c ≡ some d → r.sent c ≡ some d
  pub channels : q.next_channel ≤ r.next_channel

pub Carries-refl : (id : Text) (c : Channel) (q : Queue) → Carries id c q q
Carries-refl id c q = record { holds_on = λ h. inl h; sends_on = λ d e. e; channels = omega arith }

module _ (id : Text) (c : Channel) where
  pub broadcast-keeps :
      (ws : List Channel) (d x : Decision) (sent : Channel → Option Decision)
      → sent c ≡ some x
      → broadcast ws d sent c ≡ some x
  broadcast-keeps ws d x sent e = broadcast-has ws d sent c ∙ ground (arith, e)

  pub broadcast-answers :
      (ws : List Channel) (d : Decision) (sent : Channel → Option Decision)
      → has c ws ≡ true
      → (x : Decision) × (broadcast ws d sent c ≡ some x)
  broadcast-answers ws d sent m = elim (Option-cases (sent c)) [
    | inl e ↦ (d, broadcast-has ws d sent c ∙ ground (arith, e, m))
    | inr (x, e) ↦ (x, broadcast-keeps ws d x sent e)
  ]

  -- Another hold than the one of the entry `j`.
  other_hold :
      (q : Queue) (j : Text) (b a : ℕ)
      → IsIndexed q
      → lookup j q.items ≡ some b
      → lookup id q.items ≡ some a
      → j ≢ id
      → b ≢ a
  other_hold q j b a v p r ne e =
      let (f, u, fj, _, _) = v.items_fit j b p in
      let (g, t, gi, _, _) = v.items_fit id a r in ne (ground (arith, e, u, t, fj, gi))

  pub taken-Carries :
      (j : Text) (b : ℕ) (g : Hold) (d : Decision) (q : Queue)
      → IsIndexed q
      → lookup j q.items ≡ some b
      → q.holds b ≡ some g
      → Carries id c q (deliver g d (evict j b g q))
  unfolding deliver evict
  taken-Carries j b g d q v p s = record {
    holds_on = λ (a, h, r, t, m). elim (Bool-cases (j == id)) [
      | inl e ↦
          let (x, sent) =
            broadcast-answers g.waiters d q.sent (ground (arith, eq_iff j id, e, p, s, r, t, m)) in
          let (f, u, fj, _, _) = v.items_fit j b p in
          inr (
            x,
            sent,
            record {
              used = (
                b,
                record g { resolved = true },
                update_self q.holds b _,
                ground (arith, e, eq_iff j id, u, s, fj),
              );
              absent = ground (arith, lookup-delete j id q.items, e);
            },
          )
      | inr e ↦
          let ne : j ≢ id = λ same. ground (arith, eq_iff j id, e, same) in
          inl (
            a,
            h,
            lookup-delete_ne j id q.items ne ∙ r,
            update-ne q.holds b a _ (other_hold q j b a v p r ne) ∙ t,
            m,
          )
    ];
    sends_on = λ x e. broadcast-keeps g.waiters d x q.sent e;
    channels = omega arith;
  }

  pub persist-Carries :
      (req : RequestEvent) (e source : Text) (q r : Queue)
      → Carries id c q r
      → Carries id c q (persist req e source r)
  unfolding persist
  persist-Carries req e source q r k = record {
    holds_on = λ h. elim (k.holds_on h) [
      | inl stays ↦ inl stays
      | inr (d, sent, gone) ↦ inr (d, sent, Fades-IsGone (persist-Fades req e source r) gone)
    ];
    sends_on = k.sends_on;
    channels = k.channels;
  }

  has-remove_first_other :
      (x : Channel) (ws : List Channel) → x ≢ c → has c ws ≡ true → has c (remove_first x ws) ≡ true
  unfolding remove_first
  has-remove_first_other x [] ne m = m
  has-remove_first_other x (w ∷ ws) ne m =
      ground (arith, has-remove_first_other x ws ne, eq_iff w x, eq_iff w c, ne, m)

  -- Another waiter leaves, and it was the last one of its hold.
  pub last-Carries :
      (j : Text) (b : ℕ) (g g' : Hold) (x : Channel) (q : Queue)
      → IsIndexed q
      → x ≢ c
      → lookup j q.items ≡ some b
      → q.holds b ≡ some g
      → is_empty (remove_first x g.waiters) ≡ true
      → Carries id c q (evict j b g' q)
  unfolding evict
  last-Carries j b g g' x q v apart p s last = record {
    holds_on = λ (a, h, r, t, m).
        let still = has-remove_first_other x h.waiters apart m in
        let ne : j ≢ id = λ same.
          emptied (remove_first x h.waiters) still (ground (arith, same, p, s, r, t, last)) in
        inl (
          a,
          h,
          lookup-delete_ne j id q.items ne ∙ r,
          update-ne q.holds b a _ (other_hold q j b a v p r ne) ∙ t,
          m,
        );
    sends_on = λ d e. e;
    channels = omega arith;
  }
    where
      emptied : (ws : List Channel) → has c ws ≡ true → ¬ (is_empty ws ≡ true)
      emptied [] m e = cc
      emptied (w ∷ ws) m e = cc

  -- Another waiter leaves a hold that keeps some.
  pub more-Carries :
      (b : ℕ) (g : Hold) (x : Channel) (q : Queue)
      → x ≢ c
      → q.holds b ≡ some g
      → Carries id c q (record q {
        holds = update q.holds b (some (record g { waiters = remove_first x g.waiters }));
      })
  more-Carries b g x q apart s = record {
    holds_on = λ (a, h, r, t, m). elim (Bool-cases (b == a)) [
      | inl e ↦ inl (
        a,
        record h { waiters = remove_first x h.waiters },
        r,
        ground (arith, e, eq_iff b a, s, t),
        has-remove_first_other x h.waiters apart m,
      )
      | inr e ↦ inl (a, h, r, ground (arith, e, t), m)
    ];
    sends_on = λ d e. e;
    channels = omega arith;
  }
