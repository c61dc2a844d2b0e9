-- ===== src/Approvals/Outcome.antt =====
-- What the resolvers do to the hold, its waiters and the persistence hook, and that a hold is
-- decided once.
pub mod Fades
pub mod Once
use mathlib.Core.Path.{subst}
use trollbridge.Prelude.{
  ℕ, suc, ◌≡◌, refl, sym, ap, ◌∙◌, ◌≢◌, ◌⊎◌, inl, inr, Bool, true, false, not, ◌&&◌, List, [], ◌∷◌,
  Option, none, some, is_some, arith, leb, length, if◌then◌else◌, Option-cases, Bool-cases,
  is_empty, Result, ok, err, ◌==◌, nat_eq, list_eq, eq_iff,
}
use trollbridge.Prelude.Maps.{
  update, lookup, insert, delete, lookup-delete, lookup-delete-some, lookup-insert-some,
  lookup-insert, update-cases,
}
use trollbridge.Text.{Text}
use trollbridge.Types.{RequestEvent, Decision, Effect, effect_allow, effect_deny}
use trollbridge.Approvals.Store.{
  Channel, Hold, Queue, Persisted, live, evict, broadcast, dedup_key, reconfigure,
}
use trollbridge.Approvals.Store.Lemmas.{
  IsIndexed, IsWaiting, live-cases, live-none, has, same_key, broadcast-has,
}
use trollbridge.Approvals.Enqueue.{Ticket, pending_under, attach, mint, enqueue}
use trollbridge.Approvals.Resolve.{
  approval, denial, advised, approve, deny, resolve_by_advisor, time_out, timeout_decision,
  Cancelled, cancel_waiter, shutdown, receive, remove_first, deliver, persist, drain, drain_one,
}
use trollbridge.Approvals.Resolve.Cases.{
  approve-none, approve-some, deny-none, deny-some, advisor-none, advisor-some, time_out-none,
  time_out-some, cancel-none, cancel-last, cancel-more,
}
use trollbridge.Approvals.Invariant.{IsFresh}
use trollbridge.Approvals.Steps.{
  Step, enqueues, approves, denies, advises, times_out, cancels, receives, reconfigures, shuts_down,
  Reach, here, next, IsConsistent,
}

-- The decision stands in every waiter's channel, and every other channel is as it was.
abbrev pub Served : List Channel → Decision → Queue → Queue → Type 0
Served ws d q q' = (c : Channel) → q'.sent c ≡ (if has c ws then some d else q.sent c)

served :
    (id : Text) (q : Queue) (a : ℕ) (h : Hold) (d : Decision)
    → IsWaiting q
    → live id q ≡ some (a, h)
    → Served h.waiters d q (deliver h d (evict id a h q))
unfolding deliver evict
served id q a h d w e c =
    let (p, s, _) = live-cases id q e in
    broadcast-has h.waiters d q.sent c ∙ go (Bool-cases (has c h.waiters)) p s
  where
    go :
        (has c h.waiters ≡ true) ⊎ (has c h.waiters ≡ false)
        → lookup id q.items ≡ some a
        → q.holds a ≡ some h
        → (if has c h.waiters && not (is_some (q.sent c)) then some d else q.sent c)
          ≡ (if has c h.waiters then some d else q.sent c)
    go (inl m) p s = ground (arith, m, (w.idle id a h c p s m).0)
    go (inr m) p s = rw m

-- A resolver that finds the hold live wins it: it answers true, every waiter coalesced on the hold
-- gets its decision and no other channel changes. An operator's decision goes to the persistence
-- hook, once, as allow or deny; the advisor's and the timer's never do.
pub resolve-Served :
    (q : Queue) (v : IsConsistent q) (id : Text) (a : ℕ) (h : Hold)
    → live id q ≡ some (a, h)
    → (scope reason source : Text) (d : Decision) (shown : ℕ → Text)
    → let (won, q₁) = approve id scope source q in
      let (won₂, q₂) = deny id reason source q in
      let (won₃, q₃) = resolve_by_advisor id d q in
      let (decided, q₄) = time_out shown id q in
      ((won ≡ true)
        × Served h.waiters (approval h scope) q q₁
        × (q₁.persisted
            ≡ record { request = h.request; effect = effect_allow; source = source } ∷ q.persisted))
      × ((won₂ ≡ true)
          × Served h.waiters (denial h reason) q q₂
          × (q₂.persisted
              ≡ record { request = h.request; effect = effect_deny; source = source }
                ∷ q.persisted))
      × ((won₃ ≡ true) × Served h.waiters (advised h d) q q₃ × (q₃.persisted ≡ q.persisted))
      × ((decided ≡ some (timeout_decision shown q))
          × Served h.waiters (timeout_decision shown q) q q₄
          × (q₄.persisted ≡ q.persisted))
unfolding persist deliver evict
resolve-Served q v id a h e scope reason source d shown =
    rw
      (
        approve-some id q a h e scope source,
        deny-some id q a h e reason source,
        advisor-some id q a h e d,
        time_out-some id q a h e shown,
      )
      (
        (refl, served id q a h (approval h scope) v.waiting e, refl),
        (refl, served id q a h (denial h reason) v.waiting e, refl),
        (refl, served id q a h (advised h d) v.waiting e, refl),
        (refl, served id q a h (timeout_decision shown q) v.waiting e, refl),
      )
