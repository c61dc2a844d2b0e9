-- ===== src/Tests/Redaction.antt =====
-- Redaction of two headers by a rule's modifier.
use trollbridge.Prelude.{List, [], ◌∷◌, list_eq, nat_eq}
use trollbridge.Text.{Text, codes}
use trollbridge.Policy.Rule.{header_get}
use trollbridge.Redact.Headers.{HeaderMap, redact_headers}

abbrev secrets : HeaderMap
secrets =
    (codes "Cookie", codes "session=1" ∷ [])
    ∷ (codes "Accept", codes "*/*" ∷ [])
    ∷ (codes "Proxy-Authorization", codes "Bearer t" ∷ [])
    ∷ []

abbrev by_rule : List Text
by_rule = codes "redact_cookie" ∷ []

abbrev out : HeaderMap
out = (redact_headers [] secrets by_rule).0
