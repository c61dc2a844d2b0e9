-- ===== src/Approvals/Resolve/Cases.antt =====
-- Each resolver on its two branches: the hold is not live and nothing happens, or it is and is taken.
use trollbridge.Prelude.{ℕ, ◌≡◌, true, false, none, some, is_empty, length}
use trollbridge.Prelude.Maps.{update}
use trollbridge.Text.{Text}
use trollbridge.Types.{Decision, effect_allow, effect_deny}
use trollbridge.Approvals.Store.{Channel, Hold, Queue, evict, live, claim}
use trollbridge.Approvals.Resolve.{
  deliver, persist, approval, denial, advised, approve, deny, resolve_by_advisor, time_out,
  timeout_decision, remove_first, cancel_hold, cancel_waiter,
}

module _ (id : Text) (q : Queue) where
  module _ (gone : live id q ≡ none) where
    claim-none : claim id q ≡ (none, q)
    unfolding claim
    claim-none = rw (gone, claim)

    pub approve-none : (scope source : Text) → approve id scope source q ≡ (false, q)
    unfolding approve
    approve-none scope source = rw (claim-none, approve) (rw claim-none)

    pub deny-none : (reason source : Text) → deny id reason source q ≡ (false, q)
    unfolding deny
    deny-none reason source = rw (claim-none, deny) (rw claim-none)

    pub advisor-none : (d : Decision) → resolve_by_advisor id d q ≡ (false, q)
    unfolding resolve_by_advisor
    advisor-none d = rw (claim-none, resolve_by_advisor) (rw claim-none)

    pub time_out-none : (shown : ℕ → Text) → time_out shown id q ≡ (none, q)
    unfolding time_out
    time_out-none shown = rw (claim-none, time_out) (rw claim-none)

    pub cancel-none : (c : Channel) → cancel_waiter id c q ≡ (none, q)
    unfolding cancel_waiter
    cancel-none c = rw (gone, cancel_waiter)

  module _ (a : ℕ) (h : Hold) (there : live id q ≡ some (a, h)) where
    claim-some : claim id q ≡ (some h, evict id a h q)
    unfolding claim
    claim-some = rw (there, claim)

    pub approve-some :
        (scope source : Text)
        → approve id scope source q ≡ (
          true,
          persist h.request effect_allow source (deliver h (approval h scope) (evict id a h q)),
        )
    unfolding approve
    approve-some scope source = rw (claim-some, approve) (rw claim-some)

    pub deny-some :
        (reason source : Text)
        → deny id reason source q ≡ (
          true,
          persist h.request effect_deny source (deliver h (denial h reason) (evict id a h q)),
        )
    unfolding deny
    deny-some reason source = rw (claim-some, deny) (rw claim-some)

    pub advisor-some :
        (d : Decision)
        → resolve_by_advisor id d q ≡ (true, deliver h (advised h d) (evict id a h q))
    unfolding resolve_by_advisor
    advisor-some d = rw (claim-some, resolve_by_advisor) (rw claim-some)

    pub time_out-some :
        (shown : ℕ → Text)
        → time_out shown id q
          ≡ (some (timeout_decision shown q), deliver h (timeout_decision shown q) (evict id a h q))
    unfolding time_out
    time_out-some shown = rw (claim-some, time_out) (rw claim-some)

    -- The hold with the waiter taken off.
    abbrev pub left : Channel → Hold
    left c = record h { waiters = remove_first c h.waiters }

    pub cancel-last :
        (c : Channel)
        → is_empty (remove_first c h.waiters) ≡ true
        → cancel_waiter id c q ≡ (
          some (record {
            hold = record (left c) { resolved = true };
            evicted = true;
            remaining = 0;
          }),
          evict id a (left c) q,
        )
    unfolding cancel_waiter cancel_hold
    cancel-last c e = rw (there, cancel_waiter) (rw (e, cancel_hold))

    pub cancel-more :
        (c : Channel)
        → is_empty (remove_first c h.waiters) ≡ false
        → cancel_waiter id c q ≡ (
          some (record {
            hold = left c;
            evicted = false;
            remaining = length (remove_first c h.waiters);
          }),
          record q { holds = update q.holds a (some (left c)) },
        )
    unfolding cancel_waiter cancel_hold
    cancel-more c e = rw (there, cancel_waiter) (rw (e, cancel_hold))
