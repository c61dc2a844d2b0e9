-- ===== src/Approvals/Store.antt =====
-- internal/approvals/queue.go: the types Hold and Queue, construction, coalescing identity, the
-- broadcast and the at-most-once gate `claim`.
pub mod Lemmas
use trollbridge.Prelude.{
  ℕ, suc, ◌+◌, Bool, true, false, not, ◌&&◌, ◌||◌, List, [], ◌∷◌, ◌++◌, Option, none, some, ltb,
  leb, ◌==◌, nat_eq, list_eq, if◌then◌else◌, is_empty, length, any,
}
use trollbridge.Prelude.Int.{ℤ, pos, negsuc, ltb_ℤ}
use trollbridge.Prelude.Maps.{lookup, delete, update}
use trollbridge.Text.{Text, codes}
use trollbridge.Text.Decimal.{itoa}
use trollbridge.Types.{Effect, RequestEvent, Decision}

-- A channel is an address; each has room for one decision.
abbrev pub Channel : Type 0
Channel = ℕ

pub record Hold : Type 0 where
  pub id : Text
  pub request : RequestEvent
  pub decision : Decision
  pub created_at : ℕ
  pub waiters : List Channel
  pub dedup_key : Text
  pub resolved : Bool

-- A call of the persistence hook: the request, the effect and the source.
pub record Persisted : Type 0 where
  pub request : RequestEvent
  pub effect : Effect
  pub source : Text

-- `items` and `by_key` hold addresses of holds. `sent` is the content of the channels, `persisted`
-- the calls of the hook, newest first. Addresses below `next_hold` and `next_channel` are taken.
pub record Queue : Type 0 where
  pub max_pending : ℕ
  pub timeout : ℕ
  pub on_timeout : Text
  pub items : List (Text × ℕ)
  pub by_key : List (Text × ℕ)
  pub holds : ℕ → Option Hold
  pub next_hold : ℕ
  pub sent : Channel → Option Decision
  pub next_channel : ℕ
  pub persisted : List Persisted

-- strings.Join of the parts, with NUL between.
unfoldable pub join_nul : List Text → Text
join_nul [] = []
join_nul (x ∷ []) = x
join_nul (x ∷ y ∷ xs) = x ++ 0 ∷ join_nul (y ∷ xs)

unfoldable pub dedup_key : RequestEvent → Text
dedup_key req =
    join_nul (req.identity_id ∷ req.method ∷ req.scheme ∷ req.host ∷ itoa req.port ∷ req.path ∷ [])

-- New. Times are in nanoseconds.
unfoldable pub new : ℕ → ℕ → Text → Queue
new max_pending timeout on_timeout = record {
  max_pending = if max_pending == 0 then 100 else max_pending;
  timeout = timeout;
  on_timeout = if is_empty on_timeout then codes "deny" else on_timeout;
  items = [];
  by_key = [];
  holds = λ a. none;
  next_hold = 0;
  sent = λ c. none;
  next_channel = 0;
  persisted = [];
}

-- Reconfigure. Values that are not positive, and unknown words, are ignored.
unfoldable pub reconfigure : ℕ → ℕ → Text → Queue → Queue
reconfigure max_pending timeout on_timeout q = record q {
  max_pending = if max_pending == 0 then q.max_pending else max_pending;
  timeout = if timeout == 0 then q.timeout else timeout;
  on_timeout =
      if on_timeout == codes "allow" || on_timeout == codes "deny"
      then on_timeout
      else q.on_timeout;
}

-- The send does not block: a channel that holds a decision keeps it.
unfoldable pub broadcast :
    List Channel → Decision → (Channel → Option Decision) → Channel → Option Decision
broadcast [] d sent = sent
broadcast (w ∷ ws) d sent = elim (sent w) [
  | none ↦ broadcast ws d (update sent w (some d))
  | some _ ↦ broadcast ws d sent
]

-- Mark a hold resolved and take it off both indexes.
unfoldable pub evict : Text → ℕ → Hold → Queue → Queue
evict id a h q = record q {
  holds = update q.holds a (some (record h { resolved = true }));
  items = delete id q.items;
  by_key = delete h.dedup_key q.by_key;
}

-- The hold of an id that is live: on the index, and not resolved.
unfoldable pub live : Text → Queue → Option (ℕ × Hold)
live id q = elim (lookup id q.items) [
  | none ↦ none
  | some a ↦ elim (q.holds a) [ none ↦ none | some h ↦ if h.resolved then none else some (a, h) ]
]

unfoldable pub claim : Text → Queue → Option Hold × Queue
claim id q = elim (live id q) [ none ↦ (none, q) | some (a, h) ↦ (some h, evict id a h q) ]
