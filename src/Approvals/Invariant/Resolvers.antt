-- ===== src/Approvals/Invariant/Resolvers.antt =====
-- internal/approvals/queue.go: the resolvers, Shutdown, a receive and Reconfigure on the indexes.
use trollbridge.Prelude.{
  ℕ, ◌≡◌, refl, ◌<◌, inl, inr, List, [], ◌∷◌, none, some, arith, nat_eq, list_eq, Option-cases,
  Bool-cases, is_empty,
}
use trollbridge.Prelude.Maps.{update, lookup}
use trollbridge.Text.{Text}
use trollbridge.Types.{Decision}
use trollbridge.Approvals.Store.{Channel, Hold, Queue, live, evict, reconfigure}
use trollbridge.Approvals.Store.Lemmas.{IsIndexed, live-cases, evict-IsIndexed}
use mathlib.Core.Path.{subst}
use trollbridge.Approvals.Resolve.Cases.{
  approve-none, approve-some, deny-none, deny-some, advisor-none, advisor-some, time_out-none,
  time_out-some, cancel-none, cancel-last, cancel-more,
}
use trollbridge.Approvals.Resolve.{
  approval, denial, advised, deliver, persist, approve, deny, resolve_by_advisor, time_out,
  timeout_decision, remove_first, cancel_waiter, drain_one, drain, shutdown, receive,
}
use trollbridge.Approvals.Invariant.{rewrite-IsIndexed}

-- What is sent and persisted is no part of the indexes.
deliver-IsIndexed : (h : Hold) (d : Decision) (q : Queue) → IsIndexed q → IsIndexed (deliver h d q)
unfolding deliver
deliver-IsIndexed h d q v = record {
  items_fit = v.items_fit;
  keys_fit = v.keys_fit;
  allocated = v.allocated;
}

taken-IsIndexed :
    (id : Text) (a : ℕ) (h : Hold) (d : Decision) (q : Queue)
    → IsIndexed q
    → live id q ≡ some (a, h)
    → IsIndexed (deliver h d (evict id a h q))
taken-IsIndexed id a h d q v e =
    let (p, s, _) = live-cases id q e in
    deliver-IsIndexed h d _ (evict-IsIndexed id a h h q v p s refl)

module _ (id : Text) (q : Queue) (v : IsIndexed q) where
  pub approve-IsIndexed : (scope source : Text) → IsIndexed (approve id scope source q).1
  unfolding persist
  approve-IsIndexed scope source = elim (Option-cases (live id q)) [
    | inl e ↦ rw (approve-none id q e scope source) v
    | inr ((a, h), e) ↦ rw (approve-some id q a h e scope source) (
        let w = taken-IsIndexed id a h (approval h scope) q v e in
        record { items_fit = w.items_fit; keys_fit = w.keys_fit; allocated = w.allocated })
  ]

  pub deny-IsIndexed : (reason source : Text) → IsIndexed (deny id reason source q).1
  unfolding persist
  deny-IsIndexed reason source = elim (Option-cases (live id q)) [
    | inl e ↦ rw (deny-none id q e reason source) v
    | inr ((a, h), e) ↦ rw (deny-some id q a h e reason source) (
        let w = taken-IsIndexed id a h (denial h reason) q v e in
        record { items_fit = w.items_fit; keys_fit = w.keys_fit; allocated = w.allocated })
  ]

  pub advisor-IsIndexed : (d : Decision) → IsIndexed (resolve_by_advisor id d q).1
  advisor-IsIndexed d = elim (Option-cases (live id q)) [
    | inl e ↦ rw (advisor-none id q e d) v
    | inr ((a, h), e) ↦ rw (advisor-some id q a h e d) (taken-IsIndexed id a h (advised h d) q v e)
  ]

  pub time_out-IsIndexed : (shown : ℕ → Text) → IsIndexed (time_out shown id q).1
  time_out-IsIndexed shown = elim (Option-cases (live id q)) [
    | inl e ↦ rw (time_out-none id q e shown) v
    | inr ((a, h), e) ↦
        rw (time_out-some id q a h e shown)
          (taken-IsIndexed id a h (timeout_decision shown q) q v e)
  ]

  pub cancel-IsIndexed : (c : Channel) → IsIndexed (cancel_waiter id c q).1
  cancel-IsIndexed c = elim (Option-cases (live id q)) [
    | inl e ↦ rw (cancel-none id q e c) v
    | inr ((a, h), e) ↦
        let (p, s, _) = live-cases id q e in
        elim (Bool-cases (is_empty (remove_first c h.waiters))) [
          | inl last ↦ rw (cancel-last id q a h e c last) (evict-IsIndexed id a h _ q v p s refl)
          | inr more ↦
              rw (cancel-more id q a h e c more)
                (rewrite-IsIndexed a h _ q q.sent q.next_channel v s refl refl refl)
        ]
  ]

abbrev Allocated : Queue → Type 0
Allocated q = (a : ℕ) (h : Hold) → q.holds a ≡ some h → a < q.next_hold

drain_one-Allocated : (a : ℕ) (q : Queue) → Allocated q → Allocated (drain_one a q)
unfolding drain_one deliver
drain_one-Allocated a q v b g t = elim (Option-cases (q.holds a)) [
  | inl e ↦ rw (e, drain_one) (v b g (rw (e, drain_one) at t))
  | inr (h, e) ↦ ground (arith, e, t, v b g, v a h e)
]

drain-Allocated : (items : List (Text × ℕ)) (q : Queue) → Allocated q → Allocated (drain items q)
unfolding drain
drain-Allocated [] q v = v
drain-Allocated ((id, a) ∷ items) q v =
    drain-Allocated items (drain_one a q) (drain_one-Allocated a q v)

pub shutdown-IsIndexed : (q : Queue) → IsIndexed q → IsIndexed (shutdown q)
unfolding shutdown lookup
shutdown-IsIndexed q v = record {
  items_fit = λ id a h. cc;
  keys_fit = λ k a h. cc;
  allocated = drain-Allocated q.items q v.allocated;
}

pub receive-IsIndexed :
    (c : Channel) (q q' : Queue) (d : Decision)
    → IsIndexed q
    → receive c q ≡ some (d, q')
    → IsIndexed q'
unfolding receive
receive-IsIndexed c q q' d v h =
    let w : IsIndexed (record q { sent = update q.sent c none }) = record {
      items_fit = v.items_fit;
      keys_fit = v.keys_fit;
      allocated = v.allocated;
    } in
    subst IsIndexed (ground (arith, h)) w

pub reconfigure-IsIndexed :
    (m t : ℕ) (o : Text) (q : Queue) → IsIndexed q → IsIndexed (reconfigure m t o q)
unfolding reconfigure
reconfigure-IsIndexed m t o q v = record {
  items_fit = v.items_fit;
  keys_fit = v.keys_fit;
  allocated = v.allocated;
}
