-- ===== src/Approvals/Outcome/Fades.antt =====
-- Holds keep their ids, and ids that have left the queue stay off it: every operation but enqueue.
use mathlib.Core.Path.{subst}
use trollbridge.Prelude.{
  ℕ, ◌≡◌, refl, ◌∙◌, inl, inr, true, List, [], ◌∷◌, none, some, arith, Option-cases, Bool-cases,
  is_empty, ◌==◌, nat_eq, list_eq, eq_iff,
}
use trollbridge.Prelude.Maps.{update, lookup, lookup-delete}
use trollbridge.Text.{Text}
use trollbridge.Types.{RequestEvent, Decision}
use trollbridge.Approvals.Store.{Channel, Hold, Queue, live, evict, reconfigure}
use trollbridge.Approvals.Store.Lemmas.{live-cases}
use trollbridge.Approvals.Resolve.{
  approval, denial, advised, approve, deny, resolve_by_advisor, time_out, timeout_decision,
  cancel_waiter, shutdown, receive, remove_first, deliver, persist, drain, drain_one,
}
use trollbridge.Approvals.Resolve.Cases.{
  approve-none, approve-some, deny-none, deny-some, advisor-none, advisor-some, time_out-none,
  time_out-some, cancel-none, cancel-last, cancel-more,
}

-- The id was given to a hold, and is no longer on the queue.
pub record IsGone (id : Text) (q : Queue) : Type 0 where
  pub used : (a : ℕ) × (h : Hold) × (q.holds a ≡ some h) × (h.id ≡ id)
  pub absent : lookup id q.items ≡ none

-- Holds keep their ids, and ids that are off the queue stay off it.
pub record Fades (q r : Queue) : Type 0 where
  pub keeps :
      (a : ℕ) (h : Hold) → q.holds a ≡ some h → (h' : Hold) × (r.holds a ≡ some h') × (h'.id ≡ h.id)
  pub drops : (j : Text) → lookup j q.items ≡ none → lookup j r.items ≡ none

pub Fades-refl : (q : Queue) → Fades q q
Fades-refl q = record { keeps = λ a h s. (h, s, refl); drops = λ j n. n }

Fades-trans : {q r s : Queue} → Fades q r → Fades r s → Fades q s
Fades-trans {q} {r} {s} f g = record {
  keeps = λ a h e.
      let (h', e', i) = f.keeps a h e in let (h'', e'', i') = g.keeps a h' e' in (h'', e'', i' ∙ i);
  drops = λ j n. g.drops j (f.drops j n);
}

written :
    (q : Queue) (a : ℕ) (h h' : Hold)
    → q.holds a ≡ some h
    → h'.id ≡ h.id
    → (b : ℕ) (g : Hold) → q.holds b ≡ some g
    → (g' : Hold) × (update q.holds a (some h') b ≡ some g') × (g'.id ≡ g.id)
written q a h h' s i b g t = elim (Bool-cases (a == b)) [
  | inl e ↦ (h', ground (arith, e), ground (arith, e, eq_iff a b, s, t, i))
  | inr e ↦ (g, ground (arith, e, t), refl)
]

pub evict-Fades :
    (id : Text) (a : ℕ) (h h' : Hold) (q : Queue)
    → q.holds a ≡ some h
    → h'.id ≡ h.id
    → Fades q (evict id a h' q)
unfolding evict
evict-Fades id a h h' q s i = record {
  keeps = written q a h _ s i;
  drops = λ j n. ground (arith, lookup-delete id j q.items, n);
}

pub deliver-Fades : (h : Hold) (d : Decision) (q : Queue) → Fades q (deliver h d q)
unfolding deliver
deliver-Fades h d q = record { keeps = λ a g s. (g, s, refl); drops = λ j n. n }

pub persist-Fades :
    (req : RequestEvent) (e source : Text) (q : Queue) → Fades q (persist req e source q)
unfolding persist
persist-Fades req e source q = record { keeps = λ a g s. (g, s, refl); drops = λ j n. n }

module _ (id : Text) (q : Queue) where
  taken :
      (a : ℕ) (h : Hold) (d : Decision)
      → live id q ≡ some (a, h)
      → Fades q (deliver h d (evict id a h q))
  taken a h d e =
      Fades-trans (evict-Fades id a h h q (live-cases id q e).1 refl) (deliver-Fades h d _)

  pub approve-Fades : (scope source : Text) → Fades q (approve id scope source q).1
  approve-Fades scope source = elim (Option-cases (live id q)) [
    | inl e ↦ rw (approve-none id q e scope source) (Fades-refl q)
    | inr ((a, h), e) ↦
        rw (approve-some id q a h e scope source)
          (Fades-trans (taken a h (approval h scope) e) (persist-Fades _ _ _ _))
  ]

  pub deny-Fades : (reason source : Text) → Fades q (deny id reason source q).1
  deny-Fades reason source = elim (Option-cases (live id q)) [
    | inl e ↦ rw (deny-none id q e reason source) (Fades-refl q)
    | inr ((a, h), e) ↦
        rw (deny-some id q a h e reason source)
          (Fades-trans (taken a h (denial h reason) e) (persist-Fades _ _ _ _))
  ]

  pub advisor-Fades : (d : Decision) → Fades q (resolve_by_advisor id d q).1
  advisor-Fades d = elim (Option-cases (live id q)) [
    | inl e ↦ rw (advisor-none id q e d) (Fades-refl q)
    | inr ((a, h), e) ↦ rw (advisor-some id q a h e d) (taken a h (advised h d) e)
  ]

  pub time_out-Fades : (shown : ℕ → Text) → Fades q (time_out shown id q).1
  time_out-Fades shown = elim (Option-cases (live id q)) [
    | inl e ↦ rw (time_out-none id q e shown) (Fades-refl q)
    | inr ((a, h), e) ↦ rw (time_out-some id q a h e shown) (taken a h (timeout_decision shown q) e)
  ]

  pub cancel-Fades : (c : Channel) → Fades q (cancel_waiter id c q).1
  cancel-Fades c = elim (Option-cases (live id q)) [
    | inl e ↦ rw (cancel-none id q e c) (Fades-refl q)
    | inr ((a, h), e) ↦
        let (_, s, _) = live-cases id q e in
        elim (Bool-cases (is_empty (remove_first c h.waiters))) [
          | inl last ↦ rw (cancel-last id q a h e c last) (evict-Fades id a h _ q s refl)
          | inr more ↦
              rw (cancel-more id q a h e c more)
                (record { keeps = written q a h _ s refl; drops = λ j n. n })
        ]
  ]

drain_one-keeps :
    (a : ℕ) (q : Queue) (b : ℕ) (g : Hold)
    → q.holds b ≡ some g
    → (g' : Hold) × ((drain_one a q).holds b ≡ some g') × (g'.id ≡ g.id)
unfolding drain_one deliver
drain_one-keeps a q b g t = elim (Option-cases (q.holds a)) [
  | inl e ↦ (g, rw (e, drain_one) t, refl)
  | inr (h, e) ↦ elim (Bool-cases h.resolved) [
    | inl done ↦ (g, rw (e, drain_one) (rw done t), refl)
    | inr open_hold ↦
        let (g', t', i) = written q a h (record h { resolved = true }) e refl b g t in
        (g', rw (e, drain_one) (rw open_hold t'), i)
  ]
]

drain-keeps :
    (items : List (Text × ℕ)) (q : Queue) (b : ℕ) (g : Hold)
    → q.holds b ≡ some g
    → (g' : Hold) × ((drain items q).holds b ≡ some g') × (g'.id ≡ g.id)
unfolding drain
drain-keeps [] q b g t = (g, t, refl)
drain-keeps ((id, a) ∷ items) q b g t =
    let (g', t', i) = drain_one-keeps a q b g t in
    let (g'', t'', i') = drain-keeps items (drain_one a q) b g' t' in (g'', t'', i' ∙ i)

pub shutdown-Fades : (q : Queue) → Fades q (shutdown q)
unfolding shutdown lookup
shutdown-Fades q = record { keeps = drain-keeps q.items q; drops = λ j n. refl }

pub receive-Fades :
    (c : Channel) (q r : Queue) (d : Decision) → receive c q ≡ some (d, r) → Fades q r
unfolding receive
receive-Fades c q r d e =
    let w : Fades q (record q { sent = update q.sent c none }) = record {
      keeps = λ a g s. (g, s, refl);
      drops = λ j n. n;
    } in
    subst (Fades q) (ground (arith, e)) w

pub reconfigure-Fades : (m t : ℕ) (o : Text) (q : Queue) → Fades q (reconfigure m t o q)
unfolding reconfigure
reconfigure-Fades m t o q = record { keeps = λ a g s. (g, s, refl); drops = λ j n. n }

pub Fades-IsGone : {id : Text} {q r : Queue} → Fades q r → IsGone id q → IsGone id r
Fades-IsGone {id} f g =
    let (a, h, s, i) = g.used in
    let (h', s', i') = f.keeps a h s in
    record { used = (a, h', s', i' ∙ i); absent = f.drops id g.absent }
