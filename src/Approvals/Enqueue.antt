-- ===== src/Approvals/Enqueue.antt =====
-- internal/approvals/queue.go: Enqueue and Pending.
pub mod Key
use trollbridge.Prelude.{
  ℕ, suc, Bool, true, false, not, ◌&&◌, ◌||◌, List, [], ◌∷◌, ◌++◌, Option, none, some, ltb, leb,
  ◌==◌, nat_eq, list_eq, if◌then◌else◌, length, Result, ok, err,
}
use trollbridge.Prelude.Int.{ℤ}
use trollbridge.Prelude.Maps.{update, lookup, insert}
use trollbridge.Prelude.Sort.{sort_stable}
use trollbridge.Text.{Text, lt_text}
use trollbridge.Types.{RequestEvent, Decision}
use trollbridge.Approvals.Store.{Channel, Hold, Queue, dedup_key}

-- ErrFull
pub data QueueError : Type 0 where
  full : QueueError

pub record Ticket : Type 0 where
  pub id : Text
  pub channel : Channel
  pub coalesced : Bool

-- The unresolved hold under a key of the second index.
unfoldable pub pending_under : Text → Queue → Option (ℕ × Hold)
pending_under key q = elim (lookup key q.by_key) [
  | none ↦ none
  | some a ↦ elim (q.holds a) [ none ↦ none | some h ↦ if h.resolved then none else some (a, h) ]
]

-- A new empty channel joins the waiters of a hold that is there already.
unfoldable pub attach : ℕ → Hold → Queue → Queue
attach a h q = record q {
  holds = update q.holds a (some (record h { waiters = h.waiters ++ q.next_channel ∷ [] }));
  sent = update q.sent q.next_channel none;
  next_channel = suc q.next_channel;
}

unfoldable pub fresh_hold : Text → ℕ → RequestEvent → Decision → Queue → Hold
fresh_hold id now req base q = record {
  id = id;
  request = req;
  decision = base;
  created_at = now;
  waiters = q.next_channel ∷ [];
  dedup_key = dedup_key req;
  resolved = false;
}

unfoldable pub mint : Text → ℕ → RequestEvent → Decision → Queue → Queue
unfolding fresh_hold
mint id now req base q = record q {
  items = insert id q.next_hold q.items;
  by_key = insert (dedup_key req) q.next_hold q.by_key;
  holds = update q.holds q.next_hold (some (fresh_hold id now req base q));
  next_hold = suc q.next_hold;
  sent = update q.sent q.next_channel none;
  next_channel = suc q.next_channel;
}

-- `new_id` is "hold-" and a fresh UUID, `now` the clock.
unfoldable pub enqueue :
    Text → ℕ → RequestEvent → Decision → Queue → Result QueueError (Ticket × Queue)
enqueue new_id now req base q = elim (pending_under (dedup_key req) q) [
  | some (a, h) ↦
      ok (record { id = h.id; channel = q.next_channel; coalesced = true }, attach a h q)
  | none ↦
      if leb q.max_pending (length q.items)
      then err full
      else ok (
        record { id = new_id; channel = q.next_channel; coalesced = false },
        mint new_id now req base q,
      )
]

pub record Snapshot : Type 0 where
  pub id : Text
  pub created_at : ℕ
  pub identity_id : Text
  pub method : Text
  pub scheme : Text
  pub host : Text
  pub port : ℤ
  pub path : Text
  pub reason : Text
  pub rule_id : Text

unfoldable pub snapshot : Hold → Snapshot
snapshot h = record {
  id = h.id;
  created_at = h.created_at;
  identity_id = h.request.identity_id;
  method = h.request.method;
  scheme = h.request.scheme;
  host = h.request.host;
  port = h.request.port;
  path = h.request.path;
  reason = h.decision.reason;
  rule_id = h.decision.rule_id;
}

-- Oldest first, then by id.
unfoldable pub older : Snapshot → Snapshot → Bool
older a b =
    if not (a.created_at == b.created_at) then ltb a.created_at b.created_at else lt_text a.id b.id

unfoldable pub snapshots : (ℕ → Option Hold) → List (Text × ℕ) → List Snapshot
snapshots holds [] = []
snapshots holds ((id, a) ∷ items) =
    let rest = snapshots holds items in elim (holds a) [ none ↦ rest | some h ↦ snapshot h ∷ rest ]

unfoldable pub pending : Queue → List Snapshot
pending q = sort_stable older (snapshots q.holds q.items)
