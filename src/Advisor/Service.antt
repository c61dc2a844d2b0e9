-- ===== src/Advisor/Service.antt =====
-- internal/advisor/advisor.go: the types Input, Output, Config and Service, New, the cache, validate
-- and Classify. The provider, SHA-256 and Go's quoted form of a string are parameters.
use trollbridge.Prelude.{
  ℕ, zero, suc, ◌+◌, Bool, not, List, [], ◌∷◌, ◌++◌, Option, none, some, leb, ltb, ◌==◌, nat_eq,
  list_eq, if◌then◌else◌, is_empty, any, filter_by, Result, ok, err,
}
use trollbridge.Prelude.Int.{ℤ, pos}
use trollbridge.Prelude.Maps.{lookup, insert, delete}
use trollbridge.Text.{Text, codes, to_lower, trim_space}
use trollbridge.Text.Decimal.{itoa}
use trollbridge.Types.{
  RequestEvent, Effect, Decision, DecisionSource, decision_of, effect_allow, effect_deny,
  effect_ask_user,
}
use trollbridge.Advisor.Digest.{DigestRing, new_digest_ring}

-- BodySummary and Tool, which Classify never sets, are left out.
pub record Input : Type 0 where
  pub method : Text
  pub scheme : Text
  pub host : Text
  pub port : ℤ
  pub path : Text
  pub headers_redacted : List (Text × Text)
  pub identity : Text
  pub rule_set_version : Text
  pub allow_list : List Text
  pub deny_list : List Text
  pub directives : Text
  pub mode : Text

pub record Output : Type 0 where
  pub effect : Text
  pub scope : Text
  pub reason : Text
  pub modifiers : List Text
  pub confidence : Text
  pub advisor_id : Text

pub data FailureLayer : Type 0 where
  wire schema unknown_layer : FailureLayer

-- What the provider answers: an error with its layer and text, or an output.
pub data Reply : Type 0 where
  failure : FailureLayer → Text → Reply
  output : Output → Reply

abbrev pub Provider : Type 0
Provider = Input → Reply

-- The names of the known modifiers stand for the map to true.
pub record Config : Type 0 where
  pub enabled : Bool
  pub confidence_floor : Text
  pub on_unavailable : Text
  pub cache_ttl : ℕ
  pub timeout : ℕ
  pub known_modifiers : List Text
  pub directives : Text
  pub mode : Text

pub record CacheValue : Type 0 where
  pub decision : Decision
  pub advisor_id : Text
  pub expires_at : ℕ

-- Counters. The latency buckets are left out.
pub record Stats : Type 0 where
  pub consulted : ℕ
  pub classified : ℕ
  pub fallback : ℕ
  pub err_wire : ℕ
  pub err_schema : ℕ
  pub err_unknown : ℕ

pub record Service : Type 0 where
  pub cfg : Config
  pub prov : Option Provider
  pub cache : List (Text × CacheValue)
  pub digests : DigestRing
  pub stats : Stats

-- SHA-256 in hexadecimal, and %q.
pub record Host : Type 0 where
  pub hash_string : Text → Text
  pub quoted : Text → Text

abbrev or_else : Text → Text → Text
or_else value fallback = if is_empty value then fallback else value

-- New, without the digests that a test's environment injects. Times are in nanoseconds.
unfoldable pub new_service : Config → Option Provider → Service
new_service cfg prov = record {
  cfg = record cfg {
    confidence_floor = or_else cfg.confidence_floor (codes "high");
    on_unavailable = or_else cfg.on_unavailable (codes "ask_user");
    cache_ttl = if cfg.cache_ttl == 0 then 300000000000 else cfg.cache_ttl;
    timeout = if cfg.timeout == 0 then 8000000000 else cfg.timeout;
  };
  prov = prov;
  cache = [];
  digests = new_digest_ring (pos 100);
  stats = record {
    consulted = 0;
    classified = 0;
    fallback = 0;
    err_wire = 0;
    err_schema = 0;
    err_unknown = 0;
  };
}

unfoldable pub advisor_decision : Effect → Text → Decision
advisor_decision e reason = decision_of e DecisionSource.llm_advisor reason

unfoldable pub unavailable_decision : Config → Text → Decision
unfolding advisor_decision
unavailable_decision cfg reason =
    if cfg.on_unavailable == codes "allow"
    then advisor_decision effect_allow (reason ++ codes "; on_unavailable=allow")
    else if cfg.on_unavailable == codes "deny"
    then advisor_decision effect_deny (reason ++ codes "; on_unavailable=deny")
    else advisor_decision effect_ask_user (reason ++ codes "; on_unavailable=ask_user")

-- The rank of a confidence; Go's map gives 0 for every other word.
unfoldable pub rank : Text → ℕ
rank c = if c == codes "medium" then 1 else if c == codes "high" then 2 else 0

unfoldable pub confidence_meets_floor : Text → Text → Bool
confidence_meets_floor c floor = leb (rank floor) (rank c)

abbrev pub is_one_of : Text → List Text → Bool
is_one_of word words = any (λ w. w == word) words

abbrev pub known_effects : List Text
known_effects =
    codes "allow"
    ∷ codes "deny"
    ∷ codes "ask_user"
    ∷ codes "narrow_scope"
    ∷ codes "redact_and_retry"
    ∷ codes "prefer_structured_tool"
    ∷ []

abbrev pub known_confidences : List Text
known_confidences = codes "low" ∷ codes "medium" ∷ codes "high" ∷ []

abbrev pub normal : Text → Text
normal s = trim_space (to_lower s)

unfoldable pub engine_effect : Text → Effect
engine_effect e =
    if e == codes "allow"
    then effect_allow
    else if e == codes "deny"
    then effect_deny
    else effect_ask_user

unfoldable pub known_only : List Text → List Text → List Text
known_only known mods = filter_by (λ m. is_one_of m known) mods

-- The first n elements, or all.
unfoldable pub cap_list {ℓ} : {A : Type ℓ} → ℕ → List A → List A
cap_list n [] = []
cap_list zero (x ∷ xs) = []
cap_list (suc n) (x ∷ xs) = x ∷ cap_list n xs

unfoldable pub validate : Host → Config → Output → Result Text (Decision × Text)
validate host cfg out =
    let effect = normal out.effect in
    let confidence = normal out.confidence in
    let advisor_id =
      if is_empty out.advisor_id
      then codes "advisor-" ++ cap_list 12 (host.hash_string (out.reason ++ confidence))
      else out.advisor_id in
    if not (is_one_of effect known_effects)
    then err (codes "unknown effect " ++ host.quoted effect)
    else if not (is_one_of confidence known_confidences)
    then err (codes "unknown confidence " ++ host.quoted confidence)
    else if not (confidence_meets_floor confidence cfg.confidence_floor)
    then ok (
      advisor_decision effect_ask_user (
          codes "advisor confidence "
          ++ (confidence
              ++ (codes " below floor "
                  ++ (cfg.confidence_floor ++ codes "; falling back to ask_user")))),
      out.advisor_id,
    )
    else ok (
      record (advisor_decision (engine_effect effect) out.reason) {
        advisor_id = advisor_id;
        scope = normal out.scope;
        modifiers = known_only cfg.known_modifiers out.modifiers;
      },
      advisor_id,
    )

unfoldable pub join_bar : List Text → Text
join_bar [] = []
join_bar (x ∷ []) = x
join_bar (x ∷ y ∷ xs) = x ++ 124 ∷ join_bar (y ∷ xs)

unfoldable pub build_cache_key : Host → Text → RequestEvent → Text
build_cache_key host version req = host.hash_string (
    join_bar (
      version
      ∷ req.identity_id
      ∷ req.method
      ∷ req.scheme
      ∷ req.host
      ∷ itoa req.port
      ∷ req.path
      ∷ []))

-- A value past its time, or absent, is deleted.
unfoldable pub cache_get :
    ℕ → Text → List (Text × CacheValue) → Option CacheValue × List (Text × CacheValue)
cache_get now k cache = elim (lookup k cache) [
  | none ↦ (none, delete k cache)
  | some v ↦ if ltb v.expires_at now then (none, delete k cache) else (some v, cache)
]

unfoldable pub cache_put :
    ℕ → ℕ → Text → Decision → Text → List (Text × CacheValue) → List (Text × CacheValue)
cache_put now ttl k d id cache =
    insert k (record { decision = d; advisor_id = id; expires_at = now + ttl }) cache
