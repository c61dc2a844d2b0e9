-- ===== src/Server/Gate.antt =====
-- internal/server/server.go: the flat lists before the engine, the open-mode override, and what the
-- handlers of HTTP requests and of CONNECT do with the decision.
pub mod Forwards
use trollbridge.Prelude.{
  ℕ, Bool, true, false, not, ◌&&◌, ◌||◌, List, [], ◌∷◌, ◌++◌, Option, none, some, ◌==◌, nat_eq,
  list_eq, if◌then◌else◌, Result, ok, err,
}
use trollbridge.Prelude.Int.{ℤ}
use trollbridge.Text.{Text, codes}
use trollbridge.Types.{
  Effect, RequestEvent, Decision, DecisionSource, decision_of, effect_allow, effect_deny,
  effect_ask_user, effect_ask_llm, effect_resolved_allow, effect_resolved_deny, effect_timed_out,
  effect_signaled,
}
use trollbridge.HostList.Parse.{Pattern}
use trollbridge.HostList.Match.{HostList, match}
use trollbridge.Policy.Rule.{Host}
use trollbridge.Policy.Reload.{Engine}
use trollbridge.Policy.Engine.{decide}
use trollbridge.Approvals.Store.{Queue}
use trollbridge.Approvals.Enqueue.{Ticket, QueueError, enqueue}
use trollbridge.Server.OpenMode.{OpenMode, state}

-- What the decision path reads of the server. A nil list is `none`.
pub record Server : Type 0 where
  pub allow : Option HostList
  pub deny : Option HostList
  pub engine : Engine
  pub open_mode : OpenMode

unfoldable pub deny_hit : Pattern → Decision
deny_hit pat =
    record (decision_of effect_deny DecisionSource.deny_list
      (codes "matched deny list: " ++ pat.raw)) { rule_id = pat.source }

unfoldable pub allow_hit : Pattern → Decision
allow_hit pat =
    record (decision_of effect_allow DecisionSource.allow_list
      (codes "matched allow list: " ++ pat.raw)) { rule_id = pat.source }

unfoldable pub fast_path_decide : Server → Text → Text → Text → ℤ → Text → Option Decision
unfolding deny_hit allow_hit
fast_path_decide s method scheme host port path = elim (match s.deny method scheme host port path) [
  | some pat ↦ some (deny_hit pat)
  | none ↦ elim (match s.allow method scheme host port path) [
    | some pat ↦ some (allow_hit pat)
    | none ↦ none
  ]
]

unfoldable pub open_mode_allow : Decision
open_mode_allow =
    decision_of effect_allow DecisionSource.open_mode (codes "open mode: all traffic allowed")

-- The lists, the engine if no list hits, and the window over both: handleHTTP and handleConnect up
-- to the queue. `now` is the time of both clocks.
unfoldable pub gate : Host → Server → RequestEvent → Text → Text → Text → ℕ → Decision
gate env s req method scheme path now =
    let listed = fast_path_decide s method scheme req.host req.port path in
    let decided : Decision = elim listed [ some d ↦ d | none ↦ decide env s.engine req now ] in
    if (state s.open_mode now).0 then open_mode_allow else decided

unfoldable pub gate_http : Host → Server → RequestEvent → ℕ → Decision
gate_http env s req now = gate env s req req.method (codes "http") req.path now

-- A CONNECT has a host and a port only.
unfoldable pub gate_connect : Host → Server → RequestEvent → ℕ → Decision
gate_connect env s req now = gate env s req (codes "CONNECT") [] (codes "/") now

unfoldable pub is_held : Effect → Bool
is_held e = e == effect_ask_user || e == effect_ask_llm

unfoldable pub is_forwarded : Effect → Bool
is_forwarded e = e == effect_allow || e == effect_resolved_allow

-- What becomes of a request: a decision at once, or a hold of the queue, in which the handler waits.
pub data Verdict : Type 0 where
  decided : Decision → Verdict
  waiting : Ticket → Queue → Verdict

-- `error` is the text of ErrFull.
unfoldable pub queue_full : Text → Decision
queue_full error =
    decision_of effect_resolved_deny DecisionSource.approval_queue
      (codes "approval queue full: " ++ error)

-- The start of holdAndWait.
unfoldable pub hold : Text → Text → RequestEvent → Decision → ℕ → Queue → Verdict
unfolding queue_full
hold error new_id req base now q = elim (enqueue new_id now req base q) [
  | err _ ↦ Verdict.decided (queue_full error)
  | ok (t, q') ↦ Verdict.waiting t q'
]

unfoldable pub handle_http : Host → Server → Text → Text → RequestEvent → ℕ → Queue → Verdict
unfolding is_held
handle_http env s error new_id req now q =
    let d = gate_http env s req now in
    if is_held d.effect then hold error new_id req d now q else Verdict.decided d

unfoldable pub status_from_effect : Effect → ℕ
status_from_effect e =
    if e == effect_deny || e == effect_resolved_deny || e == effect_timed_out
    then 470
    else if e == effect_ask_user || e == effect_ask_llm || e == effect_signaled
    then 471
    else 200
