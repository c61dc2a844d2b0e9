-- ===== src/Approvals/Capacity.antt =====
-- The bound on the queue, and that coalescing does not count against it.
use trollbridge.Prelude.{
  ℕ, suc, ◌≤◌, ◌≡◌, ◌≢◌, sym, [], ◌∷◌, ◌++◌, refl, true, false, none, some, arith, leb, length, ◌⊎◌,
  inl, inr, Bool-cases, ok, err, nat_eq, list_eq,
}
use trollbridge.Prelude.Maps.{lookup, update_self, update-ne, length-insert_new, lookup-insert_self}
use trollbridge.Text.{Text}
use trollbridge.Types.{RequestEvent, Decision}
use trollbridge.Approvals.Store.{Hold, Queue, live, dedup_key}
use trollbridge.Approvals.Store.Lemmas.{IsIndexed, live-cases}
use trollbridge.Approvals.Enqueue.{full, pending_under, attach, mint, enqueue}

-- A request with the key of a live hold joins it, whatever the size of the queue: the ticket names
-- that hold and a new channel and says that it coalesced; the new channel is the last waiter of the
-- hold and is empty; and no other hold and no other channel, neither index and nothing that was
-- persisted is touched.
pub enqueue-coalesces :
    (q : Queue) (v : IsIndexed q) (id : Text) (a : ℕ) (h : Hold)
    → live id q ≡ some (a, h)
    → (new_id : Text) (now : ℕ) (req : RequestEvent) (base : Decision) → dedup_key req ≡ h.dedup_key
    → (b c : ℕ) → b ≢ a
    → c ≢ q.next_channel
    → (q' : Queue) × (enqueue new_id now req base q
        ≡ ok (record { id = id; channel = q.next_channel; coalesced = true }, q'))
      × (q'.holds a ≡ some (record h { waiters = h.waiters ++ q.next_channel ∷ [] }))
      × (q'.sent q.next_channel ≡ none)
      × (q'.next_channel ≡ suc q.next_channel)
      × (q'.holds b ≡ q.holds b)
      × (q'.sent c ≡ q.sent c)
      × (q'.items ≡ q.items)
      × (q'.by_key ≡ q.by_key)
      × (q'.persisted ≡ q.persisted)
unfolding enqueue pending_under attach
enqueue-coalesces q v id a h e new_id now req base k b c other_hold other_channel =
    let (p, s, r) = live-cases id q e in
    let (g, t, i, _, under) = v.items_fit id a p in
    let there : lookup (dedup_key req) q.by_key ≡ some a = ground (arith, k, s, t, under) in
    (
      attach a h q,
      ground (arith, there, s, r, t, i),
      update_self q.holds a (some (record h { waiters = h.waiters ++ q.next_channel ∷ [] })),
      update_self q.sent q.next_channel none,
      refl,
      update-ne q.holds a b (some (record h { waiters = h.waiters ++ q.next_channel ∷ [] }))
          (λ x. other_hold (sym x)),
      update-ne q.sent q.next_channel c none (λ x. other_channel (sym x)),
      refl,
      refl,
      refl,
    )

-- A request that no live hold's key matches is refused exactly if the queue is full, and then nothing
-- is queued; otherwise it gets a hold of its own under the new id, and the queue is one hold longer
-- and within its bound.
pub enqueue-bound :
    (new_id : Text) (now : ℕ) (req : RequestEvent) (base : Decision) (q : Queue)
    → pending_under (dedup_key req) q ≡ none
    → lookup new_id q.items ≡ none
    → ((q.max_pending ≤ length q.items) × (enqueue new_id now req base q ≡ err full))
      ⊎ ((q' : Queue) × (enqueue new_id now req base q
            ≡ ok (record { id = new_id; channel = q.next_channel; coalesced = false }, q'))
          × (lookup new_id q'.items ≡ some q.next_hold)
          × (length q'.items ≡ suc (length q.items))
          × (length q'.items ≤ q'.max_pending))
unfolding enqueue mint
enqueue-bound new_id now req base q none_under fresh =
    elim (Bool-cases (leb q.max_pending (length q.items))) [
      | inl e ↦ inl (ground (arith, e), ground (arith, e, none_under))
      | inr e ↦ inr (
        mint new_id now req base q,
        ground (arith, e, none_under),
        lookup-insert_self new_id q.next_hold q.items,
        ground (arith, length-insert_new new_id q.next_hold q.items fresh),
        ground (arith, e, length-insert_new new_id q.next_hold q.items fresh),
      )
    ]
