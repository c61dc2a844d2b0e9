-- ===== src/Approvals/Wait/Returns.antt =====
-- internal/approvals/queue.go, Wait: what its three events return on the ticket of an enqueue.
use mathlib.Core.Path.{subst}
use trollbridge.Prelude.{
  ℕ, ◌≡◌, ◌<◌, ◌⊎◌, inl, inr, Option, none, some, arith, Bool-cases, is_empty, ok, refl, true,
  false, ◌++◌, ◌∷◌, [], eq_refl, nat_eq, list_eq,
}
use trollbridge.Prelude.Maps.{lookup, update, update_self, lookup-insert_self}
use trollbridge.Text.{Text}
use trollbridge.Types.{RequestEvent, Decision}
use trollbridge.Approvals.Store.{Channel, Hold, Queue, live, dedup_key}
use trollbridge.Approvals.Enqueue.{Ticket, pending_under, attach, mint, enqueue, fresh_hold}
use trollbridge.Approvals.Resolve.{
  time_out, timeout_decision, cancel_waiter, disconnected, receive, remove_first,
}
use trollbridge.Approvals.Resolve.Cases.{
  time_out-none, time_out-some, cancel-none, cancel-last, cancel-more,
}
use trollbridge.Approvals.Steps.{Step, enqueues, IsConsistent, Step-IsConsistent}
use trollbridge.Approvals.Invariant.{IsFresh, pending-cases}
use trollbridge.Approvals.Invariant.Waiters.{has-append}
use trollbridge.Approvals.Wait.{WaitEvent, wait}
use trollbridge.Approvals.Wait.Awaited.{Held, Answered}
use trollbridge.Approvals.Wait.Others.{Others, Others-IsAwaited}

abbrev Waits : Ticket × Queue → Type 0
Waits (t, q) = Held t.id t.channel q × (t.channel < q.next_channel)

ticket-IsAwaited :
    (id : Text) (now : ℕ) (req : RequestEvent) (base : Decision) (q q' : Queue) (t : Ticket)
    → IsConsistent q
    → IsFresh id q
    → enqueue id now req base q ≡ ok (t, q')
    → Waits (t, q')
unfolding enqueue attach mint fresh_hold
ticket-IsAwaited id now req base q q' t v fresh h = go (pending_under (dedup_key req) q) refl
  where
    go : (o : Option (ℕ × Hold)) → pending_under (dedup_key req) q ≡ o → Waits (t, q')
    go (some (a, g)) e =
        let (under, s, _) = pending-cases (dedup_key req) q e in
        let (k, u, _, there) = v.indexed.keys_fit (dedup_key req) a under in
        let same : ◌≡◌ {A = Ticket × Queue}
            (record { id = g.id; channel = q.next_channel; coalesced = true }, attach a g q)
            (t, q') =
          ground (arith, e, h) in
        subst Waits same (
          (
            a,
            record g { waiters = g.waiters ++ q.next_channel ∷ [] },
            ground (arith, there, u, s),
            update_self q.holds a _,
            ground (
              arith,
              has-append q.next_channel g.waiters (q.next_channel ∷ []),
              eq_refl q.next_channel,
            ),
          ),
          omega arith,
        )
    go none e =
        let same : ◌≡◌ {A = Ticket × Queue}
            (
              record { id = id; channel = q.next_channel; coalesced = false },
              mint id now req base q,
            )
            (t, q') =
          ground (arith, e, h) in
        subst Waits same (
          (
            q.next_hold,
            fresh_hold id now req base q,
            lookup-insert_self id q.next_hold q.items,
            update_self q.holds q.next_hold _,
            ground (arith, eq_refl q.next_channel),
          ),
          omega arith,
        )

-- The hold is undecided: the channel is empty, and the timer or the end of the context decides.
abbrev pub Undecided : (ℕ → Text) → Text → Channel → Queue → Type 0
Undecided shown id c r =
    (wait shown WaitEvent.answered id c r ≡ none)
    × ((q₁ : Queue) × (wait shown WaitEvent.timer id c r ≡ some (timeout_decision shown r, q₁)))
    × ((q₂ : Queue) × (wait shown WaitEvent.client_gone id c r ≡ some (disconnected, q₂)))

-- The hold is decided: every way out of the wait returns the decision that was sent.
abbrev pub Decided : (ℕ → Text) → Text → Channel → Queue → Type 0
Decided shown id c r =
    (d : Decision) × (q₁ : Queue) × (wait shown WaitEvent.answered id c r ≡ some (d, q₁))
    × (wait shown WaitEvent.timer id c r ≡ some (d, q₁))
    × (wait shown WaitEvent.client_gone id c r ≡ some (d, q₁))

held_live :
    (id : Text) (r : Queue) {a : ℕ} {h : Hold}
    → lookup id r.items ≡ some a
    → r.holds a ≡ some h
    → h.resolved ≡ false
    → live id r ≡ some (a, h)
unfolding live
held_live id r p s fresh = ground (arith, p, s, fresh)

Held-Undecided :
    (shown : ℕ → Text) (id : Text) (c : Channel) (r : Queue)
    → IsConsistent r
    → Held id c r
    → Undecided shown id c r
unfolding wait receive
Held-Undecided shown id c r v (a, h, p, s, m) =
    let (f, u, _, fresh, _) = v.indexed.items_fit id a p in
    let there = held_live id r p s (ground (arith, u, s, fresh)) in
    (
      ground (arith, (v.waiting.idle id a h c p s m).0),
      (
        (time_out shown id r).1,
        rw (time_out-some id r a h there shown, wait)
            (rw (time_out-some id r a h there shown) refl),
      ),
      elim (Bool-cases (is_empty (remove_first c h.waiters))) [
        | inl last ↦ (
          (cancel_waiter id c r).1,
          rw (cancel-last id r a h there c last, wait)
              (rw (cancel-last id r a h there c last) refl),
        )
        | inr more ↦ (
          (cancel_waiter id c r).1,
          rw (cancel-more id r a h there c more, wait)
              (rw (cancel-more id r a h there c more) refl),
        )
      ],
    )

Answered-Decided :
    (shown : ℕ → Text) (id : Text) (c : Channel) (r : Queue)
    → Answered id c r
    → Decided shown id c r
unfolding wait receive live
Answered-Decided shown id c r (d, sent, gone) =
    let off : live id r ≡ none = ground (arith, gone.absent) in
    let read : receive c r ≡ some (d, record r { sent = update r.sent c none }) =
      rw (sent, receive) refl in
    (
      d,
      _,
      read,
      rw (time_out-none id r off shown, wait) (rw (time_out-none id r off shown) read),
      rw (cancel-none id r off c, wait) (rw (cancel-none id r off c) read),
    )

-- A waiter on its ticket always gets a decision. After an enqueue in a consistent state and any
-- sequence of the others' operations, either the hold is undecided, and then the timer ends the wait
-- with the timeout decision and the end of the client's context with its denial, or a decision stands
-- in the channel, and then the channel, the timer and the end of the context all return that decision.
pub wait-returns :
    (shown : ℕ → Text) (id : Text) (now : ℕ) (req : RequestEvent) (base : Decision) (q q' r : Queue)
    (t : Ticket)
    → IsConsistent q
    → IsFresh id q
    → enqueue id now req base q ≡ ok (t, q')
    → Others shown t.channel q' r
    → Undecided shown t.id t.channel r ⊎ Decided shown t.id t.channel r
wait-returns shown id now req base q q' r t v fresh e others =
    let (held, low) = ticket-IsAwaited id now req base q q' t v fresh e in
    let first : Step shown q q' = enqueues id now req base t fresh e in
    let w =
      Others-IsAwaited t.id t.channel others
        (record { consistent = Step-IsConsistent first v; low = low; stands = inl held }) in
    elim w.stands [
      | inl stays ↦ inl (Held-Undecided shown t.id t.channel r w.consistent stays)
      | inr answer ↦ inr (Answered-Decided shown t.id t.channel r answer)
    ]
