-- ===== src/Approvals/Invariant.antt =====
-- internal/approvals/queue.go: Enqueue on the two indexes of the queue.
pub mod Waiters
pub mod Resolvers
use trollbridge.Prelude.{
  ℕ, suc, ◌≡◌, refl, sym, ap, ◌∙◌, ◌≢◌, ◌<◌, ◌⊎◌, inl, inr, Bool, true, false, List, [], ◌∷◌,
  Option, none, some, arith, ◌==◌, nat_eq, list_eq, eq_iff, eq→≡, if◌then◌else◌, Option-cases,
  Bool-cases, is_empty, length, Result, ok, err, ◌++◌,
}
use trollbridge.Prelude.Maps.{
  update, lookup, insert, delete, lookup-insert-some, lookup-insert_self, lookup-insert_ne,
  update_self, update-ne, update-cases,
}
use trollbridge.Text.{Text}
use trollbridge.Types.{RequestEvent, Decision}
use trollbridge.Approvals.Store.{
  Channel, Hold, Queue, live, claim, evict, dedup_key, new, reconfigure,
}
use trollbridge.Approvals.Store.Lemmas.{
  IsIndexed, ItemFits, KeyFits, live-cases, evict-IsIndexed, same_key,
}
use trollbridge.Approvals.Enqueue.{
  Ticket, QueueError, pending_under, attach, mint, fresh_hold, enqueue,
}
use mathlib.Core.Path.{subst}
use trollbridge.Approvals.Resolve.Cases.{
  approve-none, approve-some, deny-none, deny-some, advisor-none, advisor-some, time_out-none,
  time_out-some, cancel-none, cancel-last, cancel-more,
}
use trollbridge.Approvals.Resolve.{
  approval, denial, advised, deliver, persist, approve, deny, resolve_by_advisor, time_out,
  timeout_decision, remove_first, Cancelled, cancel_hold, cancel_waiter, drain_one, drain, shutdown,
  shutdown_decision, receive,
}

-- No hold ever made has this id: what a fresh UUID gives.
abbrev pub IsFresh : Text → Queue → Type 0
IsFresh id q = (a : ℕ) (h : Hold) → q.holds a ≡ some h → h.id ≢ id

pub new-IsIndexed : (m t : ℕ) (o : Text) → IsIndexed (new m t o)
unfolding new lookup
new-IsIndexed m t o = record {
  items_fit = λ id a h. cc;
  keys_fit = λ k a h. cc;
  allocated = λ a h e. cc;
}

pub pending-cases :
    (key : Text) (q : Queue) {a : ℕ} {h : Hold}
    → pending_under key q ≡ some (a, h)
    → (lookup key q.by_key ≡ some a) × (q.holds a ≡ some h) × (h.resolved ≡ false)
unfolding pending_under
pending-cases key q {a} {h} e = ground arith

pub pending-none :
    (key : Text) (q : Queue) → IsIndexed q → pending_under key q ≡ none → lookup key q.by_key ≡ none
unfolding pending_under
pending-none key q v e = elim (Option-cases (lookup key q.by_key)) [
  | inl none_there ↦ none_there
  | inr (a, there) ↦
      let (h, s, _, i) = v.keys_fit key a there in
      let (g, t, _, r, _) = v.items_fit h.id a i in ground (arith, there, s, t, r)
]

-- A hold rewritten in place, with its id, key and state kept.
pub rewrite-IsIndexed :
    (a : ℕ) (h h' : Hold) (q : Queue) (sent : Channel → Option Decision) (n : ℕ)
    → IsIndexed q
    → q.holds a ≡ some h
    → h'.id ≡ h.id
    → h'.dedup_key ≡ h.dedup_key
    → h'.resolved ≡ h.resolved
    → IsIndexed (record q { holds = update q.holds a (some h'); sent = sent; next_channel = n })
rewrite-IsIndexed a h h' q sent n v s i k r = record {
  items_fit = λ j b p.
      let (g, t, gi, gr, gk) = v.items_fit j b p in
      elim (Bool-cases (a == b)) [
        | inl e ↦ (
          h',
          ground (arith, e),
          ground (arith, e, eq_iff a b, s, t, i, gi),
          ground (arith, e, eq_iff a b, s, t, r, gr),
          ground (arith, e, eq_iff a b, s, t, k, gk),
        )
        | inr e ↦ (g, ground (arith, e, t), gi, gr, gk)
      ];
  keys_fit = λ key b p.
      let (g, t, gk, gi) = v.keys_fit key b p in
      elim (Bool-cases (a == b)) [
        | inl e ↦ (
          h',
          ground (arith, e),
          ground (arith, e, eq_iff a b, s, t, k, gk),
          ground (arith, e, eq_iff a b, s, t, i, gi),
        )
        | inr e ↦ (g, ground (arith, e, t), gk, gi)
      ];
  allocated = λ b g t. elim (update-cases q.holds a b (some h') t) [
    | inl (e, _) ↦ ground (arith, v.allocated a h s, e)
    | inr (_, t') ↦ v.allocated b g t'
  ];
}

attach-IsIndexed :
    (a : ℕ) (h : Hold) (q : Queue) → IsIndexed q → q.holds a ≡ some h → IsIndexed (attach a h q)
unfolding attach
attach-IsIndexed a h q v s = rewrite-IsIndexed a h _ q _ _ v s refl refl refl

mint-IsIndexed :
    (id : Text) (now : ℕ) (req : RequestEvent) (base : Decision) (q : Queue)
    → IsIndexed q
    → IsFresh id q
    → lookup (dedup_key req) q.by_key ≡ none
    → IsIndexed (mint id now req base q)
unfolding mint
mint-IsIndexed id now req base q v fresh none_under = record {
  items_fit = λ j b p. elim (lookup-insert-some id j q.next_hold q.items p) [
    | inl (e, e') ↦ (
      minted,
      rw (← e') (update_self q.holds q.next_hold (some minted)),
      e,
      refl,
      rw (← e') (lookup-insert_self (dedup_key req) q.next_hold q.by_key),
    )
    | inr (ne, p') ↦
        let (g, t, gi, gr, gk) = v.items_fit j b p' in
        (
          g,
          update-ne q.holds q.next_hold b _ (newer b g t) ∙ t,
          gi,
          gr,
          lookup-insert_ne (dedup_key req) g.dedup_key q.next_hold q.by_key
                (λ e. ground (arith, none_under, gk, e))
              ∙ gk,
        )
  ];
  keys_fit = λ key b p. elim (lookup-insert-some (dedup_key req) key q.next_hold q.by_key p) [
    | inl (e, e') ↦ (
      minted,
      rw (← e') (update_self q.holds q.next_hold (some minted)),
      e,
      rw (← e') (lookup-insert_self id q.next_hold q.items),
    )
    | inr (ne, p') ↦
        let (g, t, gk, gi) = v.keys_fit key b p' in
        (
          g,
          update-ne q.holds q.next_hold b _ (newer b g t) ∙ t,
          gk,
          lookup-insert_ne id g.id q.next_hold q.items (λ e. fresh b g t (sym e)) ∙ gi,
        )
  ];
  allocated = λ b g t. elim (update-cases q.holds q.next_hold b (some minted) t) [
    | inl (e, _) ↦ omega (arith, e)
    | inr (_, t') ↦ omega (arith, v.allocated b g t')
  ];
}
  where
    minted : Hold
    minted = fresh_hold id now req base q

    newer : (b : ℕ) (g : Hold) → q.holds b ≡ some g → q.next_hold ≢ b
    newer b g t = λ e. omega (arith, v.allocated b g t, e)

pub enqueue-IsIndexed :
    (id : Text) (now : ℕ) (req : RequestEvent) (base : Decision) (q q' : Queue) (t : Ticket)
    → IsIndexed q
    → IsFresh id q
    → enqueue id now req base q ≡ ok (t, q')
    → IsIndexed q'
unfolding enqueue
enqueue-IsIndexed id now req base q q' t v fresh h = go (pending_under (dedup_key req) q) refl
  where
    go : (o : Option (ℕ × Hold)) → pending_under (dedup_key req) q ≡ o → IsIndexed q'
    go (some (a, g)) e =
        subst IsIndexed (ground (arith, e, h))
          (attach-IsIndexed a g q v (pending-cases (dedup_key req) q e).1)
    go none e =
        subst IsIndexed (ground (arith, e, h))
          (mint-IsIndexed id now req base q v fresh (pending-none (dedup_key req) q v e))
