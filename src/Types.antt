-- ===== src/Types.antt =====
-- internal/types/types.go: the request, the effects, the sources of a decision, and the decision.
use trollbridge.Prelude.{ℕ, Bool, true, false, List, [], Option, nat_eq, list_eq}
use trollbridge.Prelude.Int.{ℤ}
use trollbridge.Text.{Text, codes}

-- A string type in the source, whose constants stand in the module below.
abbrev pub Effect : Type 0
Effect = Text

abbrev pub effect_allow : Effect
effect_allow = codes "allow"

abbrev pub effect_deny : Effect
effect_deny = codes "deny"

abbrev pub effect_ask_user : Effect
effect_ask_user = codes "ask_user"

abbrev pub effect_ask_llm : Effect
effect_ask_llm = codes "ask_llm"

abbrev pub effect_resolved_allow : Effect
effect_resolved_allow = codes "ask_user_resolved_allow"

abbrev pub effect_resolved_deny : Effect
effect_resolved_deny = codes "ask_user_resolved_deny"

abbrev pub effect_timed_out : Effect
effect_timed_out = codes "ask_user_timed_out"

abbrev pub effect_signaled : Effect
effect_signaled = codes "ask_user_signaled"

pub data DecisionSource : Type 0 where
  rule default llm_advisor approval_queue approval_timeout allow_list deny_list : DecisionSource
  tls_handshake_fail malformed_tunnel body_read_fail open_mode : DecisionSource

unfoldable pub is_human_or_llm : DecisionSource → Bool
is_human_or_llm DecisionSource.llm_advisor = true
is_human_or_llm DecisionSource.approval_queue = true
is_human_or_llm DecisionSource.approval_timeout = true
is_human_or_llm DecisionSource.open_mode = true
is_human_or_llm _ = false

-- Name and components of a recognised URL family.
pub record MatchedPattern : Type 0 where
  pub name : Text
  pub components : List (Text × Text)

-- Times are nanoseconds from the epoch. `headers` lists the values under each canonical name.
pub record RequestEvent : Type 0 where
  pub id : Text
  pub session_id : Text
  pub identity_id : Text
  pub timestamp : ℕ
  pub method : Text
  pub scheme : Text
  pub host : Text
  pub port : ℤ
  pub path : Text
  pub headers : List (Text × List Text)
  pub client_addr : Text
  pub body_available : Bool
  pub body_size : ℕ
  pub body_sample : List ℕ
  pub matched_pattern : Option MatchedPattern

pub record Decision : Type 0 where
  pub effect : Effect
  pub source : DecisionSource
  pub rule_id : Text
  pub advisor_id : Text
  pub reason : Text
  pub scope : Text
  pub modifiers : List Text
  pub expires : ℕ
  pub hold_id : Text

-- A decision with the three fields that every literal of the source sets, and zero values elsewhere.
unfoldable pub decision_of : Effect → DecisionSource → Text → Decision
decision_of e s r = record {
  effect = e;
  source = s;
  rule_id = [];
  advisor_id = [];
  reason = r;
  scope = [];
  modifiers = [];
  expires = 0;
  hold_id = [];
}
