-- ===== src/Server/Consult.antt =====
-- internal/server/server.go: buildAdvisorInputs and consultAdvisorForHold, which run the advisor for a
-- request in the queue.
pub mod Resolves
use trollbridge.Prelude.{
  ℕ, Bool, true, false, ◌||◌, List, [], ◌∷◌, Option, none, some, ◌==◌, nat_eq, list_eq,
  if◌then◌else◌, map,
}
use trollbridge.Text.{Text, codes, to_lower}
use trollbridge.Types.{RequestEvent, effect_allow, effect_deny}
use trollbridge.HostList.Match.{HostList}
use trollbridge.Policy.Rule.{header_get}
use trollbridge.Approvals.Store.{Queue}
use trollbridge.Approvals.Resolve.{resolve_by_advisor}
use trollbridge.Advisor.Service.{Service, Host}
use trollbridge.Advisor.Classify.{ListContext, classify}

unfoldable pub is_credential : Text → Bool
is_credential key =
    let k = to_lower key in
    k == codes "authorization" || k == codes "cookie" || k == codes "proxy-authorization"

unfoldable pub redacted : List (Text × List Text) → Text → Text
redacted headers key = if is_credential key then codes "<redacted>" else header_get headers key

-- The headers that the advisor sees.
unfoldable pub advisor_headers : List (Text × List Text) → List (Text × Text)
advisor_headers headers = map (λ h. (h.0, redacted headers h.0)) headers

-- The texts of the patterns; a nil list has none.
unfoldable pub raw_patterns : Option HostList → List Text
raw_patterns none = []
raw_patterns (some l) = map (λ p. p.raw) l.patterns

-- The advisor's verdict resolves the hold if it is to allow or to deny.
unfoldable pub consult_advisor_for_hold :
    Host
    → ℕ
    → ℕ
    → RequestEvent
    → Text
    → Text
    → Option HostList
    → Option HostList
    → Service
    → Queue
    → Service × Queue
consult_advisor_for_hold host start now req version hold_id allow deny s q =
    let lists = some (raw_patterns allow, raw_patterns deny) in
    let (d, _, s') = classify host start now req version (advisor_headers req.headers) lists s in
    (
      s',
      if d.effect == effect_allow || d.effect == effect_deny
          then (resolve_by_advisor hold_id d q).1
          else q,
    )
