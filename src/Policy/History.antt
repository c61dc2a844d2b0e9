-- ===== src/Policy/History.antt =====
-- internal/policy/history.go: the bounded window of recent decisions.
pub mod Recent
pub mod Within
use mathlib.Core.List.{reverse, tail}
use trollbridge.Prelude.{
  ℕ, zero, suc, ◌+◌, ◌-◌, ◌*◌, ◌%◌, Bool, true, false, not, ◌&&◌, ◌||◌, List, [], ◌∷◌, ◌++◌, Option,
  none, some, leb, ltb, ◌==◌, nat_eq, list_eq, if◌then◌else◌, is_empty, length, any,
}
use trollbridge.Prelude.Int.{ℤ, pos, negsuc, pos_part, neg_part}
use trollbridge.Text.{Text, codes, trim_prefix}
use trollbridge.Types.{Effect, DecisionSource, RequestEvent, Decision}

pub record HistoryEntry : Type 0 where
  pub when : ℕ
  pub identity_id : Text
  pub host : Text
  pub effect : Effect
  pub rule_id : Text

-- `buf` is oldest first. The capacity is positive: `new_history` sees to it.
pub record History : Type 0 where
  pub buf : List HistoryEntry
  pub cap : ℕ

unfoldable pub new_history : ℕ → History
new_history capacity = record { buf = []; cap = if capacity == 0 then 1024 else capacity }

unfoldable pub from_advisor : DecisionSource → Bool
from_advisor DecisionSource.llm_advisor = true
from_advisor _ = false

-- `copy(h.buf, h.buf[1:])` and the cut to `cap - 1` drop the oldest of a full buffer.
unfoldable pub make_room : ℕ → List HistoryEntry → List HistoryEntry
make_room cap buf = if leb cap (length buf) then tail buf else buf

unfoldable pub record_decision : History → RequestEvent → Decision → ℕ → History
record_decision h req d when = if from_advisor d.source then h else record h {
  buf =
      make_room h.cap h.buf
      ++ record {
        when = when;
        identity_id = req.identity_id;
        host = req.host;
        effect = d.effect;
        rule_id = d.rule_id;
      }
        ∷ [];
}

unfoldable pub trim_resolved : Effect → Effect
trim_resolved effect = trim_prefix effect (codes "ask_user_resolved_")

-- The test of one round of the loop in HasOppositeEffect.
unfoldable pub is_opposite : Text → Effect → HistoryEntry → Bool
unfolding trim_resolved
is_opposite host want e =
    e.host == host
    && (not (is_empty (trim_resolved e.effect)) && not (trim_resolved e.effect == want))

unfoldable pub has_opposite_effect : History → Text → Effect → Bool
unfolding is_opposite
has_opposite_effect h host current =
    if is_empty host || is_empty current
    then false
    else any (is_opposite host (trim_resolved current)) (reverse h.buf)

pub record PriorDecisionMatch : Type 0 where
  pub effect : Effect
  pub same_identity : Bool
  pub same_host : Bool
  pub within_seconds : ℤ

abbrev pub two_63 : ℕ
two_63 = 9_223_372_036_854_775_808

abbrev pub two_64 : ℕ
two_64 = 18_446_744_073_709_551_616

-- The int64 of a bit pattern, in two's complement.
unfoldable pub int64_of : ℕ → ℤ
int64_of bits = if ltb bits two_63 then pos bits else negsuc (two_64 - 1 - bits)

-- `-time.Duration(m.WithinSeconds) * time.Second`, which wraps round in int64.
unfoldable pub cutoff_offset : ℤ → ℤ
unfolding int64_of
cutoff_offset (pos s) = int64_of ((two_64 - s * 1_000_000_000 % two_64) % two_64)
cutoff_offset (negsuc s) = int64_of (suc s * 1_000_000_000 % two_64)

-- `e.When.Before(now.Add(d))`, on nanoseconds.
unfoldable pub is_stale : ℕ → ℤ → HistoryEntry → Bool
unfolding cutoff_offset
is_stale now within e = let d = cutoff_offset within in ltb (e.when + neg_part d) (now + pos_part d)

-- The three `continue` guards of the loop in Match.
unfoldable pub meets : RequestEvent → PriorDecisionMatch → HistoryEntry → Bool
meets req m e =
    (is_empty m.effect || e.effect == m.effect)
    && (not m.same_identity || e.identity_id == req.identity_id)
    && (not m.same_host || e.host == req.host)

-- Newest first, up to the first entry that is too old.
unfoldable pub match_newest : RequestEvent → PriorDecisionMatch → ℕ → List HistoryEntry → Bool
match_newest req m now [] = false
match_newest req m now (e ∷ older) =
    if is_stale now m.within_seconds e
    then false
    else if meets req m e
    then true
    else match_newest req m now older

unfoldable pub match_history : History → RequestEvent → PriorDecisionMatch → ℕ → Bool
match_history h req m now = match_newest req m now (reverse h.buf)
