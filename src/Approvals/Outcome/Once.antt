-- ===== src/Approvals/Outcome/Once.antt =====
-- A hold is decided once: whoever comes after the resolver that won it finds nothing, in every state
-- that follows.
use mathlib.Core.Path.{subst}
use trollbridge.Prelude.{
  ℕ, ◌≡◌, refl, sym, ◌∙◌, ◌≢◌, inl, inr, true, false, [], ◌∷◌, ◌++◌, Option, none, some, arith,
  Option-cases, Bool-cases, ok, ◌==◌, nat_eq, list_eq, eq_iff, eq_refl,
}
use trollbridge.Prelude.Maps.{lookup-delete, lookup-insert_ne, update_self, update-ne}
use trollbridge.Text.{Text}
use trollbridge.Types.{RequestEvent, Decision}
use trollbridge.Approvals.Store.{Channel, Hold, Queue, live, evict, dedup_key}
use trollbridge.Approvals.Store.Lemmas.{IsIndexed, live-cases}
use trollbridge.Approvals.Enqueue.{Ticket, pending_under, attach, mint, enqueue}
use trollbridge.Approvals.Resolve.{
  approval, denial, advised, approve, deny, resolve_by_advisor, time_out, timeout_decision,
  cancel_waiter, deliver,
}
use trollbridge.Approvals.Resolve.Cases.{
  approve-none, approve-some, deny-none, deny-some, advisor-none, advisor-some, time_out-none,
  time_out-some, cancel-none,
}
use trollbridge.Approvals.Invariant.{IsFresh, pending-cases}
use trollbridge.Approvals.Steps.{
  Step, enqueues, approves, denies, advises, times_out, cancels, receives, reconfigures, shuts_down,
  Reach, here, next, IsConsistent, Step-IsConsistent,
}
use trollbridge.Approvals.Outcome.Fades.{
  IsGone, Fades-IsGone, persist-Fades, approve-Fades, deny-Fades, advisor-Fades, time_out-Fades,
  cancel-Fades, shutdown-Fades, receive-Fades, reconfigure-Fades,
}

attach-IsGone :
    (id : Text) (a : ℕ) (h : Hold) (q : Queue)
    → q.holds a ≡ some h
    → IsGone id q
    → IsGone id (attach a h q)
unfolding attach
attach-IsGone id a h q s g =
    let (b, k, t, i) = g.used in
    elim (Bool-cases (a == b)) [
      | inl e ↦ record {
        used = (
          b,
          record h { waiters = h.waiters ++ q.next_channel ∷ [] },
          ground (arith, e),
          ground (arith, e, eq_iff a b, s, t, i),
        );
        absent = g.absent;
      }
      | inr e ↦ record { used = (b, k, ground (arith, e, t), i); absent = g.absent }
    ]

mint-IsGone :
    (id j : Text) (now : ℕ) (req : RequestEvent) (base : Decision) (q : Queue)
    → IsIndexed q
    → IsFresh j q
    → IsGone id q
    → IsGone id (mint j now req base q)
unfolding mint
mint-IsGone id j now req base q v fresh g =
    let (b, k, t, i) = g.used in
    record {
      used = (
        b,
        k,
        update-ne q.holds q.next_hold b _ (λ e. omega (arith, v.allocated b k t, e)) ∙ t,
        i,
      );
      absent = lookup-insert_ne j id q.next_hold q.items (λ e. fresh b k t (i ∙ sym e)) ∙ g.absent;
    }

enqueue-IsGone :
    (id j : Text) (now : ℕ) (req : RequestEvent) (base : Decision) (q q' : Queue) (t : Ticket)
    → IsIndexed q
    → IsFresh j q
    → enqueue j now req base q ≡ ok (t, q')
    → IsGone id q
    → IsGone id q'
unfolding enqueue
enqueue-IsGone id j now req base q q' t v fresh h gone = go (pending_under (dedup_key req) q) refl
  where
    go : (o : Option (ℕ × Hold)) → pending_under (dedup_key req) q ≡ o → IsGone id q'
    go (some (a, g)) e =
        subst (IsGone id) (ground (arith, e, h))
          (attach-IsGone id a g q (pending-cases (dedup_key req) q e).1 gone)
    go none e =
        subst (IsGone id) (ground (arith, e, h)) (mint-IsGone id j now req base q v fresh gone)

pub Step-IsGone :
    {shown : ℕ → Text} {q r : Queue} (id : Text)
    → Step shown q r
    → IsIndexed q
    → IsGone id q
    → IsGone id r
Step-IsGone id (enqueues j now req base t fresh e) v =
    enqueue-IsGone id j now req base _ _ t v fresh e
Step-IsGone id (approves {q} j scope source) v = Fades-IsGone (approve-Fades j q scope source)
Step-IsGone id (denies {q} j reason source) v = Fades-IsGone (deny-Fades j q reason source)
Step-IsGone id (advises {q} j d) v = Fades-IsGone (advisor-Fades j q d)
Step-IsGone {shown} id (times_out {q} j) v = Fades-IsGone (time_out-Fades j q shown)
Step-IsGone id (cancels {q} j c) v = Fades-IsGone (cancel-Fades j q c)
Step-IsGone id (receives c d e) v = Fades-IsGone (receive-Fades c _ _ d e)
Step-IsGone id (reconfigures {q} m t o) v = Fades-IsGone (reconfigure-Fades m t o q)
Step-IsGone id (shuts_down {q}) v = Fades-IsGone (shutdown-Fades q)

Reach-IsGone :
    {shown : ℕ → Text} {q r : Queue} (id : Text)
    → Reach shown q r
    → IsConsistent q
    → IsGone id q
    → IsConsistent r × IsGone id r
Reach-IsGone id here v g = (v, g)
Reach-IsGone id (next p s) v g =
    let (w, gone) = Reach-IsGone id p v g in
    (Step-IsConsistent s w, Step-IsGone id s w.indexed gone)

-- A resolver that decides the hold of an id: it answers true, or the timer gives its decision.
pub data Wins (shown : ℕ → Text) (id : Text) (q : Queue) : Queue → Type 0 where
  approved :
      (scope source : Text)
      → (approve id scope source q).0 ≡ true
      → Wins shown id q (approve id scope source q).1
  denied :
      (reason source : Text)
      → (deny id reason source q).0 ≡ true
      → Wins shown id q (deny id reason source q).1
  by_advisor :
      (d : Decision)
      → (resolve_by_advisor id d q).0 ≡ true
      → Wins shown id q (resolve_by_advisor id d q).1
  timed_out :
      (d : Decision) → (time_out shown id q).0 ≡ some d → Wins shown id q (time_out shown id q).1

-- Every later attempt on the id fails and changes nothing.
abbrev pub IsSettled : (ℕ → Text) → Text → Queue → Type 0
IsSettled shown id r =
    (scope reason source : Text) (d : Decision) (c : Channel)
    → (approve id scope source r ≡ (false, r))
      × (deny id reason source r ≡ (false, r))
      × (resolve_by_advisor id d r ≡ (false, r))
      × (time_out shown id r ≡ (none, r))
      × (cancel_waiter id c r ≡ (none, r))

gone-IsSettled : (shown : ℕ → Text) (id : Text) (r : Queue) → IsGone id r → IsSettled shown id r
unfolding live
gone-IsSettled shown id r g scope reason source d c =
    let e : live id r ≡ none = ground (arith, g.absent) in
    (
      approve-none id r e scope source,
      deny-none id r e reason source,
      advisor-none id r e d,
      time_out-none id r e shown,
      cancel-none id r e c,
    )

taken-IsGone :
    (id : Text) (q : Queue) (a : ℕ) (h : Hold) (d : Decision)
    → IsIndexed q
    → live id q ≡ some (a, h)
    → IsGone id (deliver h d (evict id a h q))
unfolding evict deliver
taken-IsGone id q a h d v e =
    let (p, s, _) = live-cases id q e in
    let (g, t, i, _, _) = v.items_fit id a p in
    record {
      used = (a, record h { resolved = true }, update_self q.holds a _, ground (arith, s, t, i));
      absent = ground (arith, lookup-delete id id q.items, eq_refl id);
    }

Wins-Step : {shown : ℕ → Text} {id : Text} {q r : Queue} → Wins shown id q r → Step shown q r
Wins-Step {shown} {id} (approved scope source w) = approves id scope source
Wins-Step {shown} {id} (denied reason source w) = denies id reason source
Wins-Step {shown} {id} (by_advisor d w) = advises id d
Wins-Step {shown} {id} (timed_out d w) = times_out id

Wins-live : {shown : ℕ → Text} {id : Text} {q r : Queue} → Wins shown id q r → live id q ≢ none
Wins-live {shown} {id} {q} (approved scope source w) e =
    ground (arith, w, approve-none id q e scope source)
Wins-live {shown} {id} {q} (denied reason source w) e =
    ground (arith, w, deny-none id q e reason source)
Wins-live {shown} {id} {q} (by_advisor d w) e = ground (arith, w, advisor-none id q e d)
Wins-live {shown} {id} {q} (timed_out d w) e = ground (arith, w, time_out-none id q e shown)

won-IsGone :
    {shown : ℕ → Text} {id : Text} {q r : Queue} (a : ℕ) (h : Hold)
    → IsIndexed q
    → live id q ≡ some (a, h)
    → Wins shown id q r
    → IsGone id r
won-IsGone {shown} {id} {q} a h v e (approved scope source w) =
    rw (approve-some id q a h e scope source)
      (Fades-IsGone (persist-Fades _ _ _ _) (taken-IsGone id q a h (approval h scope) v e))
won-IsGone {shown} {id} {q} a h v e (denied reason source w) =
    rw (deny-some id q a h e reason source)
      (Fades-IsGone (persist-Fades _ _ _ _) (taken-IsGone id q a h (denial h reason) v e))
won-IsGone {shown} {id} {q} a h v e (by_advisor d w) =
    rw (advisor-some id q a h e d) (taken-IsGone id q a h (advised h d) v e)
won-IsGone {shown} {id} {q} a h v e (timed_out d w) =
    rw (time_out-some id q a h e shown) (taken-IsGone id q a h (timeout_decision shown q) v e)

-- A hold is decided at most once. When a resolver wins an id in a consistent state, then in every
-- state that any sequence of operations reaches from there, every further approve, deny, advisor
-- answer, timeout or cancellation of that id fails and leaves the queue unchanged.
pub Wins-IsSettled :
    (shown : ℕ → Text) (id : Text) (q won r : Queue)
    → IsConsistent q
    → Wins shown id q won
    → Reach shown won r
    → IsSettled shown id r
Wins-IsSettled shown id q won r v w p = elim (Option-cases (live id q)) [
  | inl e ↦ elim (Wins-live w e) [ ]
  | inr ((a, h), e) ↦
      gone-IsSettled shown id r
        (Reach-IsGone id p (Step-IsConsistent (Wins-Step w) v) (won-IsGone a h v.indexed e w)).1
]
