-- ===== src/Server/Refusal.antt =====
-- internal/server/refusal.go: the response to a request that is not forwarded.
pub mod Wire
use trollbridge.Prelude.{
  ℕ, Bool, true, false, ◌||◌, List, [], ◌∷◌, ◌++◌, Option, none, some, ltb, leb, ◌==◌, nat_eq,
  list_eq, if◌then◌else◌, is_empty,
}
use trollbridge.Text.{Text, codes, split_byte, trim_space}
use trollbridge.Types.{
  Effect, Decision, effect_ask_user, effect_ask_llm, effect_signaled, effect_timed_out,
}

-- Go's mime.ParseMediaType, which gives the media type or an error, and json.Marshal of the refusal body
-- with its effect and request id.
pub record Codec : Type 0 where
  pub media_type : Text → Option Text
  pub marshal : Text → Text → Option Text

pub record Response : Type 0 where
  pub headers : List (Text × Text)
  pub body : Text
  pub content_type : Text

unfoldable pub categorical_effect : Effect → Text
categorical_effect e =
    if e == effect_ask_user || e == effect_ask_llm || e == effect_signaled
    then codes "pending"
    else codes "declined"

unfoldable pub plain_text_body : Text → Text → Text
plain_text_body category request_id =
    codes "trollbridge: request " ++ category ++ codes " (request_id=" ++ request_id ++ codes ")"

unfoldable pub proxy_status_token : Effect → Text
proxy_status_token e =
    if e == effect_timed_out || e == effect_ask_user || e == effect_ask_llm || e == effect_signaled
    then codes "proxy_internal_response"
    else codes "http_request_denied"

-- The loop of sfQuotedString.
unfoldable pub sf_escape : Text → Text
sf_escape [] = []
sf_escape (c ∷ s) =
    if c == b'\\' || c == b'"'
    then b'\\' ∷ c ∷ sf_escape s
    else if ltb c 0x20 || leb 0x7f c
    then b'?' ∷ sf_escape s
    else c ∷ sf_escape s

unfoldable pub sf_quoted_string : Text → Text
sf_quoted_string s = b'"' ∷ sf_escape s ++ b'"' ∷ []

unfoldable pub format_proxy_status : Text → Text → Text
format_proxy_status token request_id =
    codes "trollbridge; error=" ++ token ++ codes "; request-id=" ++ sf_quoted_string request_id

-- The loop of acceptsJSON.
unfoldable pub names_json : Codec → List Text → Bool
names_json codec [] = false
names_json codec (part ∷ parts) = elim (codec.media_type (trim_space part)) [
  | none ↦ names_json codec parts
  | some mt ↦ if mt == codes "application/json" then true else names_json codec parts
]

unfoldable pub accepts_json : Codec → Text → Bool
accepts_json codec accept =
    if is_empty accept then false else names_json codec (split_byte b',' accept)

unfoldable pub deny_headers : Effect → Text → Text → List (Text × Text)
deny_headers e hold_id request_id =
    let base =
      (codes "Trollbridge-Request-Id", request_id)
      ∷ (codes "Trollbridge-Reason", categorical_effect e)
      ∷ (codes "Proxy-Status", format_proxy_status (proxy_status_token e) request_id)
      ∷ (codes "Trollbridge-Discovery", codes "http://config.trollbridge.dev/discovery")
      ∷ [] in
    if is_empty hold_id then base else base ++ (codes "Trollbridge-Hold-Id", hold_id) ∷ []

unfoldable pub plain_response : List (Text × Text) → Text → Text → Response
plain_response headers category request_id = record {
  headers = headers;
  body = plain_text_body category request_id;
  content_type = codes "text/plain; charset=utf-8";
}

-- The body in the form that the client accepts.
unfoldable pub respond : Codec → Text → Text → Text → List (Text × Text) → Response
respond codec accept category request_id headers =
    let plain = plain_response headers category request_id in
    if accepts_json codec accept
    then elim (codec.marshal category request_id) [
      | some b ↦ record { headers = headers; body = b; content_type = codes "application/json" }
      | none ↦ plain
    ]
    else plain

unfoldable pub deny_response : Codec → Decision → Text → Text → Response
deny_response codec d given accept =
    let request_id = if is_empty given then codes "unknown" else given in
    respond codec accept (categorical_effect d.effect) request_id
      (deny_headers d.effect d.hold_id request_id)
