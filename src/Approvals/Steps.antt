-- ===== src/Approvals/Steps.antt =====
-- The queue as a state machine: any interleaving of the operations, each atomic under the lock, and
-- what holds in every state that a new queue reaches.
use mathlib.Core.Path.{subst}
use trollbridge.Prelude.{
  ℕ, ◌≡◌, refl, inl, inr, Option, none, some, arith, Option-cases, Bool-cases, is_empty, ok,
}
use trollbridge.Prelude.Maps.{update, lookup}
use trollbridge.Text.{Text}
use trollbridge.Types.{RequestEvent, Decision}
use trollbridge.Approvals.Store.{Channel, Hold, Queue, live, evict, dedup_key, new, reconfigure}
use trollbridge.Approvals.Store.Lemmas.{IsIndexed, IsWaiting, live-cases}
use trollbridge.Approvals.Enqueue.{Ticket, pending_under, enqueue}
use trollbridge.Approvals.Resolve.{
  approval, denial, advised, approve, deny, resolve_by_advisor, time_out, timeout_decision,
  cancel_waiter, shutdown, receive, remove_first, deliver, persist,
}
use trollbridge.Approvals.Resolve.Cases.{
  approve-none, approve-some, deny-none, deny-some, advisor-none, advisor-some, time_out-none,
  time_out-some, cancel-none, cancel-last, cancel-more,
}
use trollbridge.Approvals.Invariant.{IsFresh, new-IsIndexed, pending-cases, enqueue-IsIndexed}
use trollbridge.Approvals.Invariant.Resolvers.{
  approve-IsIndexed, deny-IsIndexed, advisor-IsIndexed, time_out-IsIndexed, cancel-IsIndexed,
  shutdown-IsIndexed, receive-IsIndexed, reconfigure-IsIndexed,
}
use trollbridge.Approvals.Invariant.Waiters.{
  taken-IsWaiting, evicted-IsWaiting, shrink-IsWaiting, attach-IsWaiting, mint-IsWaiting,
}

-- One atomic operation. A UUID is fresh; an enqueue that fails changes nothing. `shown` is Go's text
-- of a duration.
pub data Step (shown : ℕ → Text) : Queue → Queue → Type 0 where
  enqueues :
      {q q' : Queue} (id : Text) (now : ℕ) (req : RequestEvent) (base : Decision) (t : Ticket)
      → IsFresh id q
      → enqueue id now req base q ≡ ok (t, q')
      → Step shown q q'
  approves : {q : Queue} (id scope source : Text) → Step shown q (approve id scope source q).1
  denies : {q : Queue} (id reason source : Text) → Step shown q (deny id reason source q).1
  advises : {q : Queue} (id : Text) (d : Decision) → Step shown q (resolve_by_advisor id d q).1
  times_out : {q : Queue} (id : Text) → Step shown q (time_out shown id q).1
  cancels : {q : Queue} (id : Text) (c : Channel) → Step shown q (cancel_waiter id c q).1
  receives :
      {q q' : Queue} (c : Channel) (d : Decision) → receive c q ≡ some (d, q') → Step shown q q'
  reconfigures : {q : Queue} (m t : ℕ) (o : Text) → Step shown q (reconfigure m t o q)
  shuts_down : {q : Queue} → Step shown q (shutdown q)

pub data Reach (shown : ℕ → Text) (q : Queue) : Queue → Type 0 where
  here : Reach shown q q
  next : {r s : Queue} → Reach shown q r → Step shown r s → Reach shown q s

pub record IsConsistent (q : Queue) : Type 0 where
  pub indexed : IsIndexed q
  pub waiting : IsWaiting q

Step-IsIndexed : {shown : ℕ → Text} {q r : Queue} → Step shown q r → IsIndexed q → IsIndexed r
Step-IsIndexed (enqueues id now req base t fresh e) v =
    enqueue-IsIndexed id now req base _ _ t v fresh e
Step-IsIndexed (approves {q} id scope source) v = approve-IsIndexed id q v scope source
Step-IsIndexed (denies {q} id reason source) v = deny-IsIndexed id q v reason source
Step-IsIndexed (advises {q} id d) v = advisor-IsIndexed id q v d
Step-IsIndexed {shown} (times_out {q} id) v = time_out-IsIndexed id q v shown
Step-IsIndexed (cancels {q} id c) v = cancel-IsIndexed id q v c
Step-IsIndexed (receives c d e) v = receive-IsIndexed c _ _ d v e
Step-IsIndexed (reconfigures {q} m t o) v = reconfigure-IsIndexed m t o q v
Step-IsIndexed (shuts_down {q}) v = shutdown-IsIndexed q v

persist-IsWaiting :
    (req : RequestEvent) (e source : Text) (q : Queue)
    → IsWaiting q
    → IsWaiting (persist req e source q)
unfolding persist
persist-IsWaiting req e source q w = record { idle = w.idle; apart = w.apart }

module _ (id : Text) (q : Queue) (v : IsConsistent q) where
  taken :
      (a : ℕ) (h : Hold) (d : Decision)
      → live id q ≡ some (a, h)
      → IsWaiting (deliver h d (evict id a h q))
  taken a h d e =
      let (p, s, _) = live-cases id q e in taken-IsWaiting id a h h d q v.waiting v.indexed p s refl

  approve-IsWaiting : (scope source : Text) → IsWaiting (approve id scope source q).1
  approve-IsWaiting scope source = elim (Option-cases (live id q)) [
    | inl e ↦ rw (approve-none id q e scope source) v.waiting
    | inr ((a, h), e) ↦
        rw (approve-some id q a h e scope source)
          (persist-IsWaiting _ _ _ _ (taken a h (approval h scope) e))
  ]

  deny-IsWaiting : (reason source : Text) → IsWaiting (deny id reason source q).1
  deny-IsWaiting reason source = elim (Option-cases (live id q)) [
    | inl e ↦ rw (deny-none id q e reason source) v.waiting
    | inr ((a, h), e) ↦
        rw (deny-some id q a h e reason source)
          (persist-IsWaiting _ _ _ _ (taken a h (denial h reason) e))
  ]

  advisor-IsWaiting : (d : Decision) → IsWaiting (resolve_by_advisor id d q).1
  advisor-IsWaiting d = elim (Option-cases (live id q)) [
    | inl e ↦ rw (advisor-none id q e d) v.waiting
    | inr ((a, h), e) ↦ rw (advisor-some id q a h e d) (taken a h (advised h d) e)
  ]

  time_out-IsWaiting : (shown : ℕ → Text) → IsWaiting (time_out shown id q).1
  time_out-IsWaiting shown = elim (Option-cases (live id q)) [
    | inl e ↦ rw (time_out-none id q e shown) v.waiting
    | inr ((a, h), e) ↦ rw (time_out-some id q a h e shown) (taken a h (timeout_decision shown q) e)
  ]

  cancel-IsWaiting : (c : Channel) → IsWaiting (cancel_waiter id c q).1
  cancel-IsWaiting c = elim (Option-cases (live id q)) [
    | inl e ↦ rw (cancel-none id q e c) v.waiting
    | inr ((a, h), e) ↦
        let (p, s, _) = live-cases id q e in
        elim (Bool-cases (is_empty (remove_first c h.waiters))) [
          | inl last ↦
              rw (cancel-last id q a h e c last)
                (evicted-IsWaiting id a h _ q v.waiting v.indexed p s)
          | inr more ↦ rw (cancel-more id q a h e c more) (shrink-IsWaiting id a h c q v.waiting s)
        ]
  ]

enqueue-IsWaiting :
    (id : Text) (now : ℕ) (req : RequestEvent) (base : Decision) (q q' : Queue) (t : Ticket)
    → IsConsistent q
    → enqueue id now req base q ≡ ok (t, q')
    → IsWaiting q'
unfolding enqueue
enqueue-IsWaiting id now req base q q' t v h = go (pending_under (dedup_key req) q) refl
  where
    go : (o : Option (ℕ × Hold)) → pending_under (dedup_key req) q ≡ o → IsWaiting q'
    go (some (a, g)) e =
        subst IsWaiting (ground (arith, e, h))
          (attach-IsWaiting a g q v.waiting (pending-cases (dedup_key req) q e).1)
    go none e =
        subst IsWaiting (ground (arith, e, h))
          (mint-IsWaiting id now req base q v.waiting v.indexed)

receive-IsWaiting :
    (c : Channel) (q q' : Queue) (d : Decision)
    → IsWaiting q
    → receive c q ≡ some (d, q')
    → IsWaiting q'
unfolding receive
receive-IsWaiting c q q' d v h =
    let w : IsWaiting (record q { sent = update q.sent c none }) = record {
      idle = λ j b g x r t m. let (free, low) = v.idle j b g x r t m in (ground (arith, free), low);
      apart = v.apart;
    } in
    subst IsWaiting (ground (arith, h)) w

reconfigure-IsWaiting :
    (m t : ℕ) (o : Text) (q : Queue) → IsWaiting q → IsWaiting (reconfigure m t o q)
unfolding reconfigure
reconfigure-IsWaiting m t o q w = record { idle = w.idle; apart = w.apart }

shutdown-IsWaiting : (q : Queue) → IsWaiting (shutdown q)
unfolding shutdown lookup
shutdown-IsWaiting q = record { idle = λ j b g c r t m. cc; apart = λ i j a b g h c r t. cc }

new-IsConsistent : (m t : ℕ) (o : Text) → IsConsistent (new m t o)
unfolding new lookup
new-IsConsistent m t o = record {
  indexed = new-IsIndexed m t o;
  waiting = record { idle = λ j b g c r. cc; apart = λ i j a b g h c r. cc };
}

-- One operation, in whatever order they come, keeps the indexes in step and the channels apart.
pub Step-IsConsistent :
    {shown : ℕ → Text} {q r : Queue} → Step shown q r → IsConsistent q → IsConsistent r
Step-IsConsistent s v = record { indexed = Step-IsIndexed s v.indexed; waiting = waiting s v }
  where
    waiting : {shown : ℕ → Text} {q r : Queue} → Step shown q r → IsConsistent q → IsWaiting r
    waiting (enqueues id now req base t fresh e) v = enqueue-IsWaiting id now req base _ _ t v e
    waiting (approves {q} id scope source) v = approve-IsWaiting id q v scope source
    waiting (denies {q} id reason source) v = deny-IsWaiting id q v reason source
    waiting (advises {q} id d) v = advisor-IsWaiting id q v d
    waiting {shown} (times_out {q} id) v = time_out-IsWaiting id q v shown
    waiting (cancels {q} id c) v = cancel-IsWaiting id q v c
    waiting (receives c d e) v = receive-IsWaiting c _ _ d v.waiting e
    waiting (reconfigures {q} m t o) v = reconfigure-IsWaiting m t o q v.waiting
    waiting (shuts_down {q}) v = shutdown-IsWaiting q

Reach-keeps : {shown : ℕ → Text} {q r : Queue} → Reach shown q r → IsConsistent q → IsConsistent r
Reach-keeps here v = v
Reach-keeps (next p s) v = Step-IsConsistent s (Reach-keeps p v)

-- Every state that a new queue reaches by any sequence of operations is consistent: the two indexes
-- name the same unresolved holds, each by its own id and key, and the waiters of the live holds have
-- empty channels, none of which two holds share.
pub Reach-IsConsistent :
    (shown : ℕ → Text) (m t : ℕ) (o : Text) (q : Queue) → Reach shown (new m t o) q → IsConsistent q
Reach-IsConsistent shown m t o q p = Reach-keeps p (new-IsConsistent m t o)
