-- ===== src/Server/OpRows.antt =====
-- internal/server/server.go: what the server tells the ring of operations: the URL of a row, its
-- status after a decision and after the audit, and the status of a body sample.
use trollbridge.Prelude.{
  ℕ, Bool, not, ◌&&◌, ◌||◌, List, [], ◌∷◌, ◌++◌, any, ◌==◌, nat_eq, list_eq, if◌then◌else◌,
  is_empty, Bool-cases, inl, inr,
}
use trollbridge.Prelude.Int.{ℤ, pos, ltb_ℤ, int_eq}
use trollbridge.Text.{Text, codes}
use trollbridge.Text.Decimal.{itoa}
use trollbridge.Types.{
  RequestEvent, Effect, effect_allow, effect_deny, effect_resolved_allow, effect_resolved_deny,
  effect_timed_out,
}
use trollbridge.Opstream.Steps.{Reach, resolves}
use trollbridge.Opstream.Ring.{
  Ring, resolve, status_denied, status_signaled, status_error, status_running,
}

abbrev plain_scheme : Text → Text
plain_scheme s =
    if s == codes "https-tunneled" || s == codes "https-intercepted" then codes "https" else s

abbrev default_port : Text → ℤ → Bool
default_port scheme port =
    (scheme == codes "http" && port == pos 80) || (scheme == codes "https" && port == pos 443)

-- opURLForRequest. Default ports are left out.
unfoldable pub op_url : RequestEvent → Text
op_url req =
    let scheme = plain_scheme req.scheme in
    if req.method == codes "CONNECT" || is_empty req.scheme
    then if req.port == pos 443 then req.host else req.host ++ codes ":" ++ itoa req.port
    else if default_port scheme req.port
    then scheme ++ codes "://" ++ req.host ++ req.path
    else scheme ++ codes "://" ++ req.host ++ codes ":" ++ itoa req.port ++ req.path

abbrev leaves_checking : List Effect
leaves_checking =
    effect_allow ∷ effect_resolved_allow ∷ effect_deny ∷ effect_resolved_deny ∷ effect_timed_out
    ∷ []

-- transitionOpFromEvaluating
unfoldable pub transition_op : ℕ → Text → Effect → Ring → Ring
transition_op now id e r =
    if any (λ x. x == e) leaves_checking then resolve now id status_running (pos 0) (pos 0) r else r

-- opStatusFromAudit, of the response's status and the error text.
unfoldable pub op_status : ℤ → Text → Text
op_status response_status problem =
    if response_status == pos 470
    then status_denied
    else if response_status == pos 471
    then status_signaled
    else if ltb_ℤ (pos 0) response_status
    then itoa response_status
    else if is_empty problem
    then status_running
    else status_error

-- The last line of writeAudit.
unfoldable pub finish_op : ℕ → RequestEvent → ℤ → Text → ℤ → ℤ → Ring → Ring
finish_op now req response_status problem latency_ms size r =
    resolve now req.id (op_status response_status problem) latency_ms size r

unfoldable pub inspection_status : Bool → Bool → Text
inspection_status has_body truncated =
    if not has_body
    then codes "not_required"
    else if truncated
    then codes "truncated"
    else codes "inspected"

-- What the server does to the ring are steps of the ring.
pub transition_op-Reach :
    (start r : Ring) (now : ℕ) (req : RequestEvent) (e : Effect) (response_status latency size : ℤ)
    (problem : Text)
    → Reach start r
    → Reach start (transition_op now req.id e r)
      × Reach start (finish_op now req response_status problem latency size r)
unfolding transition_op finish_op
transition_op-Reach start r now req e response_status latency size problem p = (
  elim (Bool-cases (any (λ x. x == e) leaves_checking)) [
    | inl leaves ↦ rw leaves (Reach.next p (resolves now req.id status_running (pos 0) (pos 0)))
    | inr stays ↦ rw stays p
  ],
  Reach.next p (resolves now req.id (op_status response_status problem) latency size),
)
