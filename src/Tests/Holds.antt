-- ===== src/Tests/Holds.antt =====
-- The approval queue on a hold with one waiter.
use trollbridge.Prelude.{
  ℕ, suc, ◌≡◌, ◌≢◌, ◌≤◌, ◌↔◌, ◌⊎◌, inl, inr, refl, Bool, true, false, arith, List, [], ◌∷◌, ◌++◌,
  Option, none, some, Result, ok, err, length, ◌==◌, nat_eq, list_eq,
}
use trollbridge.Prelude.Maps.{lookup}
use trollbridge.Text.{Text, codes}
use trollbridge.Types.{
  RequestEvent, Decision, DecisionSource, decision_of, effect_allow, effect_deny,
}
use trollbridge.Approvals.Store.{Channel, Hold, Queue, live, new, dedup_key}
use trollbridge.Approvals.Enqueue.{Ticket, full, pending_under, mint, fresh_hold, enqueue}
use trollbridge.Approvals.Enqueue.Key.{IsPlain, dedup_key_iff}
use trollbridge.Approvals.Resolve.{
  approval, denial, advised, approve, deny, resolve_by_advisor, time_out, timeout_decision,
}
use trollbridge.Approvals.Invariant.{IsFresh}
use trollbridge.Approvals.Steps.{
  enqueues, approves, Reach, here, next, IsConsistent, Reach-IsConsistent,
}
use trollbridge.Approvals.Capacity.{enqueue-coalesces, enqueue-bound}
use trollbridge.Approvals.Outcome.{Served, resolve-Served}
use trollbridge.Approvals.Outcome.Once.{Wins, IsSettled, Wins-IsSettled}
use trollbridge.Approvals.Wait.Others.{Others}
use trollbridge.Approvals.Wait.Returns.{Undecided, Decided, wait-returns}
use trollbridge.Tests.Samples.{request, base, empty_queue, held_queue}

abbrev shown : ℕ → Text
shown n = codes "5ns"

abbrev ticket : Ticket
ticket = record { id = codes "hold-1"; channel = 0; coalesced = false }

enqueued : enqueue (codes "hold-1") 1000 request base empty_queue ≡ ok (ticket, held_queue)
unfolding enqueue pending_under new lookup
enqueued = refl

unused : (id : Text) → IsFresh id empty_queue
unfolding new
unused id a h = cc

to_held : Reach shown (new 1 5 (codes "deny")) held_queue
to_held =
    next here
      (enqueues (codes "hold-1") 1000 request base ticket (unused (codes "hold-1")) enqueued)

Reach-IsConsistent_example : IsConsistent held_queue
Reach-IsConsistent_example = Reach-IsConsistent shown 1 5 (codes "deny") held_queue to_held

held-IsConsistent : IsConsistent held_queue
held-IsConsistent = Reach-IsConsistent shown 1 5 (codes "deny") held_queue to_held

abbrev the_hold : Hold
the_hold = fresh_hold (codes "hold-1") 1000 request base empty_queue

held_live : live (codes "hold-1") held_queue ≡ some (0, the_hold)
unfolding live mint new fresh_hold lookup trollbridge.Prelude.Maps.insert
held_live = refl

approve_won : (approve (codes "hold-1") [] (codes "tui") held_queue).0 ≡ true
unfolding approve live mint new fresh_hold trollbridge.Approvals.Store.claim lookup
    trollbridge.Prelude.Maps.insert
approve_won = refl

abbrev after_approve : Queue
after_approve = (approve (codes "hold-1") [] (codes "tui") held_queue).1

Wins-IsSettled_example : IsSettled shown (codes "hold-1") after_approve
Wins-IsSettled_example =
    Wins-IsSettled shown (codes "hold-1") held_queue after_approve after_approve held-IsConsistent
      (Wins.approved [] (codes "tui") approve_won) here

abbrev answer : Decision
answer = decision_of effect_allow DecisionSource.llm_advisor (codes "read only")

resolve-Served_example :
    (((approve (codes "hold-1") [] (codes "tui") held_queue).0 ≡ true)
      × Served the_hold.waiters
          (approval the_hold [])
          held_queue
          (approve (codes "hold-1") [] (codes "tui") held_queue).1
      × ((approve (codes "hold-1") [] (codes "tui") held_queue).1.persisted
          ≡ record { request = the_hold.request; effect = effect_allow; source = codes "tui" }
            ∷ held_queue.persisted))
    × (((deny (codes "hold-1") [] (codes "tui") held_queue).0 ≡ true)
        × Served the_hold.waiters
            (denial the_hold [])
            held_queue
            (deny (codes "hold-1") [] (codes "tui") held_queue).1
        × ((deny (codes "hold-1") [] (codes "tui") held_queue).1.persisted
            ≡ record { request = the_hold.request; effect = effect_deny; source = codes "tui" }
              ∷ held_queue.persisted))
    × (((resolve_by_advisor (codes "hold-1") answer held_queue).0 ≡ true)
        × Served the_hold.waiters
            (advised the_hold answer)
            held_queue
            (resolve_by_advisor (codes "hold-1") answer held_queue).1
        × ((resolve_by_advisor (codes "hold-1") answer held_queue).1.persisted
            ≡ held_queue.persisted))
    × (((time_out shown (codes "hold-1") held_queue).0 ≡ some (timeout_decision shown held_queue))
        × Served the_hold.waiters
            (timeout_decision shown held_queue)
            held_queue
            (time_out shown (codes "hold-1") held_queue).1
        × ((time_out shown (codes "hold-1") held_queue).1.persisted ≡ held_queue.persisted))
resolve-Served_example =
    resolve-Served held_queue held-IsConsistent (codes "hold-1") 0 the_hold held_live [] []
      (codes "tui") answer shown

same_request : dedup_key request ≡ the_hold.dedup_key
unfolding fresh_hold
same_request = refl

seven_other : ◌≢◌ {A = ℕ} 7 0
seven_other = omega arith

zero_used : ◌≢◌ {A = ℕ} 0 held_queue.next_channel
unfolding mint new
zero_used = omega arith

enqueue-coalesces_example :
    (q' : Queue) × (enqueue (codes "hold-2") 2000 request base held_queue
      ≡ ok
          (record { id = codes "hold-1"; channel = held_queue.next_channel; coalesced = true }, q'))
    × (q'.holds 0
        ≡ some (record the_hold { waiters = the_hold.waiters ++ held_queue.next_channel ∷ [] }))
    × (q'.sent held_queue.next_channel ≡ none)
    × (q'.next_channel ≡ suc held_queue.next_channel)
    × (q'.holds 7 ≡ held_queue.holds 7)
    × (q'.sent 0 ≡ held_queue.sent 0)
    × (q'.items ≡ held_queue.items)
    × (q'.by_key ≡ held_queue.by_key)
    × (q'.persisted ≡ held_queue.persisted)
enqueue-coalesces_example =
    enqueue-coalesces held_queue held-IsConsistent.indexed (codes "hold-1") 0 the_hold held_live
      (codes "hold-2") 2000 request base same_request 7 0 seven_other zero_used

abbrev other_request : RequestEvent
other_request = record request { path = codes "/users" }

none_pending : pending_under (dedup_key other_request) held_queue ≡ none
unfolding pending_under dedup_key mint new fresh_hold trollbridge.Approvals.Store.join_nul
    trollbridge.Text.Decimal.itoa lookup trollbridge.Prelude.Maps.insert
none_pending = refl

new_id_free : lookup (codes "hold-2") held_queue.items ≡ none
unfolding mint new lookup trollbridge.Prelude.Maps.insert
new_id_free = refl

enqueue-bound_example :
    ((held_queue.max_pending ≤ length held_queue.items)
      × (enqueue (codes "hold-2") 2000 other_request base held_queue ≡ err full))
    ⊎ ((q' : Queue) × (enqueue (codes "hold-2") 2000 other_request base held_queue
          ≡ ok (
            record { id = codes "hold-2"; channel = held_queue.next_channel; coalesced = false },
            q',
          ))
        × (lookup (codes "hold-2") q'.items ≡ some held_queue.next_hold)
        × (length q'.items ≡ suc (length held_queue.items))
        × (length q'.items ≤ q'.max_pending))
enqueue-bound_example =
    enqueue-bound (codes "hold-2") 2000 other_request base held_queue none_pending new_id_free

request-IsPlain : IsPlain request
request-IsPlain = record { identity = refl; method = refl; scheme = refl; host = refl }

other-IsPlain : IsPlain other_request
other-IsPlain = record { identity = refl; method = refl; scheme = refl; host = refl }

dedup_key_iff_example : (dedup_key request ≡ dedup_key other_request) ↔ (
    (request.identity_id ≡ other_request.identity_id)
    × (request.method ≡ other_request.method)
    × (request.scheme ≡ other_request.scheme)
    × (request.host ≡ other_request.host)
    × (request.port ≡ other_request.port)
    × (request.path ≡ other_request.path))
dedup_key_iff_example = dedup_key_iff request other_request request-IsPlain other-IsPlain

by_operator : Others shown 0 held_queue after_approve
by_operator = Others.next Others.here (approves (codes "hold-1") [] (codes "tui")) tt

wait-returns_example :
    Undecided shown (codes "hold-1") 0 after_approve
    ⊎ Decided shown (codes "hold-1") 0 after_approve
wait-returns_example =
    wait-returns shown (codes "hold-1") 1000 request base empty_queue held_queue after_approve
      ticket (Reach-IsConsistent shown 1 5 (codes "deny") empty_queue here)
      (unused (codes "hold-1")) enqueued by_operator
