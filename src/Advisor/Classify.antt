-- ===== src/Advisor/Classify.antt =====
-- internal/advisor/advisor.go: Classify, its digests and its counters.
use trollbridge.Prelude.{
  ℕ, suc, not, ◌||◌, List, [], ◌++◌, Option, none, some, ◌==◌, nat_eq, list_eq, if◌then◌else◌, ok,
  err,
}
use trollbridge.Text.{Text, codes}
use trollbridge.Types.{RequestEvent, Decision, effect_allow, effect_deny, effect_ask_user}
use trollbridge.Policy.Rule.{header_get}
use trollbridge.Advisor.Digest.{
  add_digest, outcome_classified, outcome_unavailable, outcome_validation_failed,
}
use trollbridge.Advisor.Service.{
  Input, Output, FailureLayer, Reply, Provider, Config, CacheValue, Stats, Service, Host,
  advisor_decision, unavailable_decision, validate, cap_list, build_cache_key, cache_get, cache_put,
}

abbrev pub ListContext : Type 0
ListContext = Option (List Text × List Text)

unfoldable pub record_digest :
    ℕ → RequestEvent → Text → Text → Text → Text → Text → Service → Service
record_digest now req outcome effect confidence id reason s = record s {
  digests =
      add_digest
        (record {
          timestamp = now;
          request_id = req.id;
          method = req.method;
          scheme = req.scheme;
          host = req.host;
          port = req.port;
          path = req.path;
          effect = effect;
          confidence = confidence;
          advisor_id = id;
          reason = reason;
          outcome = outcome;
          llm_input_hash = header_get req.headers (codes "X-Trollbridge-LLM-Input-Hash");
        })
        s.digests;
}

-- logFailure counts the layer; that an answer was not a classification is counted with it.
unfoldable pub count_failure : FailureLayer → Stats → Stats
count_failure FailureLayer.wire t = record t {
  fallback = suc t.fallback;
  err_wire = suc t.err_wire;
}
count_failure FailureLayer.schema t = record t {
  fallback = suc t.fallback;
  err_schema = suc t.err_schema;
}
count_failure FailureLayer.unknown_layer t = record t {
  fallback = suc t.fallback;
  err_unknown = suc t.err_unknown;
}

unfoldable pub count_answer : Decision → Stats → Stats
count_answer d t =
    if d.effect == effect_allow || d.effect == effect_deny
    then record t { classified = suc t.classified }
    else record t { fallback = suc t.fallback }

unfoldable pub unavailable : ℕ → RequestEvent → Text → Service → Decision × Text × Service
unavailable now req reason s =
    let d = unavailable_decision s.cfg reason in
    (d, [], record_digest now req outcome_unavailable d.effect [] [] d.reason s)

unfoldable pub input_for : RequestEvent → Text → List (Text × Text) → ListContext → Config → Input
input_for req version headers lists cfg = record {
  method = req.method;
  scheme = req.scheme;
  host = req.host;
  port = req.port;
  path = req.path;
  headers_redacted = headers;
  identity = req.identity_id;
  rule_set_version = version;
  allow_list = elim lists [ none ↦ [] | some (allow, deny) ↦ cap_list 200 allow ];
  deny_list = elim lists [ none ↦ [] | some (allow, deny) ↦ cap_list 200 deny ];
  directives = cfg.directives;
  mode = cfg.mode;
}

unfoldable pub invalid_decision : Text → Decision
unfolding advisor_decision
invalid_decision problem =
    advisor_decision effect_ask_user (codes "advisor validation failed: " ++ problem)

-- A provider's output: validated, counted, recorded, and cached if valid.
unfoldable pub settle :
    Host → ℕ → RequestEvent → Text → Output → Service → Decision × Text × Service
settle host now req key out s = elim (validate host s.cfg out) [
  | err problem ↦
      let d = invalid_decision problem in
      (
        d,
        [],
        record_digest now req outcome_validation_failed effect_ask_user [] [] d.reason
            (record s { stats = record s.stats { fallback = suc s.stats.fallback } }),
      )
  | ok (d, id) ↦ (
    d,
    id,
    record_digest now req outcome_classified d.effect out.confidence id out.reason (record s {
      stats = count_answer d s.stats;
      cache = cache_put now s.cfg.cache_ttl key d id s.cache;
    }),
  )
]

unfoldable pub ask_provider :
    Host → ℕ → RequestEvent → Text → Input → Provider → Service → Decision × Text × Service
ask_provider host now req key input p s =
    let asked = record s { stats = record s.stats { consulted = suc s.stats.consulted } } in
    elim (p input) [
      | Reply.failure layer text ↦
          unavailable now req (codes "advisor unavailable: " ++ text)
            (record asked { stats = count_failure layer asked.stats })
      | Reply.output out ↦ settle host now req key out asked
    ]

-- The cache has the verdict, or the provider is asked for it.
unfoldable pub from_cache :
    Host
    → ℕ
    → RequestEvent
    → Text
    → Input
    → Provider
    → Option CacheValue
    → Service
    → Decision × Text × Service
from_cache host now req key input p (some v) s = (v.decision, v.advisor_id, s)
from_cache host now req key input p none s = ask_provider host now req key input p s

-- `start` and `now` are the clock before and after the provider's answer.
unfoldable pub consult :
    Host
    → ℕ
    → ℕ
    → RequestEvent
    → Text
    → Input
    → Option Provider
    → Service
    → Decision × Text × Service
consult host start now req key input none s = unavailable start req (codes "advisor disabled") s
consult host start now req key input (some p) s =
    let (hit, cache) = cache_get start key s.cache in
    from_cache host now req key input p hit (record s { cache = cache })

unfoldable pub classify :
    Host
    → ℕ
    → ℕ
    → RequestEvent
    → Text
    → List (Text × Text)
    → ListContext
    → Service
    → Decision × Text × Service
unfolding consult
classify host start now req version headers lists s =
    if not s.cfg.enabled
    then unavailable start req (codes "advisor disabled") s
    else consult host start now req (build_cache_key host version req)
        (input_for req version headers lists s.cfg) s.prov s
