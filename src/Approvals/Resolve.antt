-- ===== src/Approvals/Resolve.antt =====
-- internal/approvals/queue.go: the resolvers Approve, Deny and ResolveByAdvisor, the two ways in
-- which Wait ends without a decision of theirs, and Shutdown.
pub mod Cases
use trollbridge.Prelude.{
  ℕ, suc, Bool, true, false, not, ◌&&◌, ◌||◌, List, [], ◌∷◌, ◌++◌, Option, none, some, ltb, leb,
  ◌==◌, nat_eq, list_eq, if◌then◌else◌, is_empty, length,
}
use trollbridge.Prelude.Maps.{update, lookup, insert, delete}
use trollbridge.Text.{Text, codes}
use trollbridge.Types.{
  Effect, RequestEvent, Decision, DecisionSource, decision_of, effect_allow, effect_deny,
  effect_resolved_allow, effect_resolved_deny, effect_timed_out,
}
use trollbridge.Approvals.Store.{Channel, Hold, Persisted, Queue, broadcast, evict, live, claim}

unfoldable pub deliver : Hold → Decision → Queue → Queue
deliver h d q = record q { sent = broadcast h.waiters d q.sent }

unfoldable pub persist : RequestEvent → Effect → Text → Queue → Queue
persist req effect source q = record q {
  persisted = record { request = req; effect = effect; source = source } ∷ q.persisted;
}

unfoldable pub approval : Hold → Text → Decision
approval h scope =
    record (decision_of effect_resolved_allow DecisionSource.approval_queue
      (codes "operator approved")) {
        rule_id = h.decision.rule_id;
        scope = if is_empty scope then codes "once" else scope;
        modifiers = h.decision.modifiers;
      }

unfoldable pub denial : Hold → Text → Decision
denial h reason =
    record (decision_of effect_resolved_deny DecisionSource.approval_queue
      (if is_empty reason then codes "operator denied" else reason)) {
        rule_id = h.decision.rule_id;
      }

-- Each resolver passes the gate; the one that gets the hold broadcasts, and an operator's decision
-- goes to the persistence hook.
unfoldable pub approve : Text → Text → Text → Queue → Bool × Queue
approve id scope source q =
    let (won, q') = claim id q in
    elim won [
      | none ↦ (false, q')
      | some h ↦ (true, persist h.request effect_allow source (deliver h (approval h scope) q'))
    ]

unfoldable pub deny : Text → Text → Text → Queue → Bool × Queue
deny id reason source q =
    let (won, q') = claim id q in
    elim won [
      | none ↦ (false, q')
      | some h ↦ (true, persist h.request effect_deny source (deliver h (denial h reason) q'))
    ]

unfoldable pub advised : Hold → Decision → Decision
advised h d = if is_empty d.rule_id then record d { rule_id = h.decision.rule_id } else d

unfoldable pub resolve_by_advisor : Text → Decision → Queue → Bool × Queue
resolve_by_advisor id d q =
    let (won, q') = claim id q in
    elim won [ none ↦ (false, q') | some h ↦ (true, deliver h (advised h d) q') ]

-- The timer of a Wait. `shown` is Go's text of a duration. `none`: another resolver was first, and
-- the caller reads its decision from the channel.
unfoldable pub timeout_decision : (ℕ → Text) → Queue → Decision
timeout_decision shown q =
    decision_of (if q.on_timeout == codes "allow" then effect_resolved_allow else effect_timed_out)
      DecisionSource.approval_timeout (codes "approval timeout after " ++ shown q.timeout)

unfoldable pub time_out : (ℕ → Text) → Text → Queue → Option Decision × Queue
time_out shown id q =
    let d = timeout_decision shown q in
    let (won, q') = claim id q in elim won [ none ↦ (none, q') | some h ↦ (some d, deliver h d q') ]

unfoldable pub remove_first : Channel → List Channel → List Channel
remove_first c [] = []
remove_first c (w ∷ ws) = if w == c then ws else w ∷ remove_first c ws

pub record Cancelled : Type 0 where
  pub hold : Hold
  pub evicted : Bool
  pub remaining : ℕ

unfoldable pub cancel_hold : ℕ → Hold → Text → Queue → Cancelled × Queue
cancel_hold a h id q =
    if is_empty h.waiters
    then (
      record { hold = record h { resolved = true }; evicted = true; remaining = 0 },
      evict id a h q,
    )
    else (
      record { hold = h; evicted = false; remaining = length h.waiters },
      record q { holds = update q.holds a (some h) },
    )

-- A waiter whose client is gone leaves its hold; the last one takes the hold off the queue.
unfoldable pub cancel_waiter : Text → Channel → Queue → Option Cancelled × Queue
cancel_waiter id c q = elim (live id q) [
  | none ↦ (none, q)
  | some (a, h) ↦
      let (result, q') = cancel_hold a (record h { waiters = remove_first c h.waiters }) id q in
      (some result, q')
]

unfoldable pub disconnected : Decision
disconnected =
    decision_of effect_resolved_deny DecisionSource.approval_queue
      (codes "client disconnected before approval")

unfoldable pub shutdown_decision : Decision
shutdown_decision =
    decision_of effect_resolved_deny DecisionSource.approval_timeout
      (codes "trollbridge shutdown; approvals denied")

-- One round of the loop of Shutdown.
unfoldable pub drain_one : ℕ → Queue → Queue
drain_one a q = elim (q.holds a) [
  | none ↦ q
  | some h ↦
      if h.resolved
      then q
      else deliver h shutdown_decision
          (record q { holds = update q.holds a (some (record h { resolved = true })) })
]

unfoldable pub drain : List (Text × ℕ) → Queue → Queue
unfolding drain_one
drain [] q = q
drain ((id, a) ∷ items) q = drain items (drain_one a q)

unfoldable pub shutdown : Queue → Queue
shutdown q = record (drain q.items q) { items = []; by_key = [] }

-- `<-ch`
unfoldable pub receive : Channel → Queue → Option (Decision × Queue)
receive c q = elim (q.sent c) [
  | none ↦ none
  | some d ↦ some (d, record q { sent = update q.sent c none })
]
