-- ===== src/Tests/Traffic.antt =====
-- The decision path, the window and the refusal on one request.
use trollbridge.Prelude.{
  ℕ, suc, ◌+◌, ◌*◌, ◌≡◌, ◌≤◌, ◌<◌, ◌↔◌, ◌⊎◌, inl, inr, refl, Bool, true, false, arith, List, [],
  ◌∷◌, ◌++◌, map, Option, none, some, Result, ok, err, length, ltb, All,
}
use trollbridge.Text.{Text, codes}
use trollbridge.Types.{
  Effect, Decision, DecisionSource, decision_of, effect_allow, effect_deny, effect_resolved_deny,
  effect_timed_out, effect_ask_user, effect_ask_llm, effect_signaled,
}
use trollbridge.HostList.Parse.{Pattern}
use trollbridge.Approvals.Store.{Queue}
use trollbridge.Approvals.Enqueue.{Ticket, enqueue}
use trollbridge.Server.OpenMode.{minute, extend, state}
use trollbridge.Server.OpenMode.Presses.{press_all, total_minutes, press_all-total}
use trollbridge.Server.Gate.{
  Server, Verdict, gate_http, handle_http, is_held, is_forwarded, status_from_effect,
}
use trollbridge.Server.Gate.Forwards.{
  denied, allowed, by_engine, IsAdmitted, gate_http-closed, handle_http-forwards, handle_http-waits,
}
use trollbridge.Server.Refusal.{
  Codec, categorical_effect, proxy_status_token, sf_quoted_string, deny_response,
}
use trollbridge.Server.Refusal.Wire.{
  sf_unquote, visible, sf_quoted_string-roundtrip, deny_response-opaque, status-category,
}
use trollbridge.Tests.Samples.{
  request, github, list_of, asking, bare_host_env, server_of, closed_window, empty_queue,
}

abbrev denying : Server
denying = server_of none (some (list_of (github ∷ []))) (asking ∷ [])

abbrev plain : Server
plain = server_of none none (asking ∷ [])

shut : (state denying.open_mode 1000).0 ≡ false
unfolding state
shut = refl

gate_http-closed_example :
    ((pat : Pattern) × (denied denying request ≡ some pat)
      × ((gate_http bare_host_env denying request 1000).effect ≡ effect_deny)
      × ((gate_http bare_host_env denying request 1000).source ≡ DecisionSource.deny_list)
      × ((gate_http bare_host_env denying request 1000).rule_id ≡ pat.source))
    ⊎ ((pat : Pattern) × (denied denying request ≡ none)
        × (allowed denying request ≡ some pat)
        × ((gate_http bare_host_env denying request 1000).effect ≡ effect_allow)
        × ((gate_http bare_host_env denying request 1000).source ≡ DecisionSource.allow_list)
        × ((gate_http bare_host_env denying request 1000).rule_id ≡ pat.source))
    ⊎ ((denied denying request ≡ none)
        × (allowed denying request ≡ none)
        × (gate_http bare_host_env denying request 1000
            ≡ by_engine bare_host_env denying request 1000))
gate_http-closed_example = gate_http-closed bare_host_env denying request 1000 shut

handle_http-forwards_example :
    ((d : Decision) × (handle_http bare_host_env denying
          (codes "full")
          (codes "hold-1")
          request
          1000
          empty_queue
        ≡ Verdict.decided d)
      × (is_forwarded d.effect ≡ true))
    ↔ IsAdmitted bare_host_env denying request 1000
handle_http-forwards_example =
    handle_http-forwards bare_host_env denying (codes "full") (codes "hold-1") request 1000
      empty_queue

abbrev engine_answer : Decision
engine_answer = by_engine bare_host_env plain request 1000

abbrev waiting_ticket : Ticket
waiting_ticket = record { id = codes "hold-1"; channel = 0; coalesced = false }

abbrev waiting_queue : Queue
waiting_queue =
    trollbridge.Approvals.Enqueue.mint (codes "hold-1") 1000 request engine_answer empty_queue

waits :
    handle_http bare_host_env plain (codes "full") (codes "hold-1") request 1000 empty_queue
    ≡ Verdict.waiting waiting_ticket waiting_queue
unfolding handle_http gate_http is_held trollbridge.Server.Gate.hold trollbridge.Server.Gate.gate
    state trollbridge.Server.Gate.fast_path_decide trollbridge.HostList.Match.match enqueue
    trollbridge.Approvals.Enqueue.pending_under trollbridge.Approvals.Store.new
    trollbridge.Prelude.Maps.lookup trollbridge.Policy.Engine.body_missing
    trollbridge.Policy.Engine.decide_rules trollbridge.Policy.Engine.decide
    trollbridge.Policy.Engine.rule_decision trollbridge.Policy.Rule.matches
    trollbridge.Policy.Rule.match_host trollbridge.Policy.Rule.host_pattern_matches
    trollbridge.Policy.Rule.bare_host trollbridge.Policy.Rule.split_host_port
    trollbridge.Policy.Rule.time_matches trollbridge.Policy.Rule.prior_matches
    trollbridge.Policy.Rule.body_matches trollbridge.Policy.Rule.matches_ignoring_body
    trollbridge.Text.to_lower trollbridge.Text.to_upper trollbridge.Text.trim_space
    trollbridge.Text.has_prefix trollbridge.Text.has_suffix trollbridge.Text.cut_last_byte
    trollbridge.Text.cut_byte trollbridge.Text.strip_prefix trollbridge.Types.decision_of
waits = refl

handle_http-waits_example :
    ((state plain.open_mode 1000).0 ≡ false)
    × (denied plain request ≡ none)
    × (allowed plain request ≡ none)
    × (is_held engine_answer.effect ≡ true)
    × (enqueue (codes "hold-1") 1000 request engine_answer empty_queue
        ≡ ok (waiting_ticket, waiting_queue))
handle_http-waits_example =
    handle_http-waits bare_host_env plain (codes "full") (codes "hold-1") request 1000 empty_queue
      waiting_ticket waiting_queue waits

press_all-total_example :
    ((press_all (1001 ∷ 1002 ∷ []) (extend 1000 closed_window)).until
      ≡ 1000 + total_minutes 3 * minute)
    × ((now : ℕ)
        → (state (press_all (1001 ∷ 1002 ∷ []) (extend 1000 closed_window)) now).0
          ≡ ltb now (1000 + total_minutes 3 * minute))
press_all-total_example =
    press_all-total 1000 closed_window (1001 ∷ 1002 ∷ []) (omega arith)
      (omega arith, (omega arith, tt))

abbrev codec : Codec
codec = record { media_type = λ s. some s; marshal = λ effect id. some effect }

abbrev denial_one : Decision
denial_one = decision_of effect_deny DecisionSource.rule (codes "secret rule")

abbrev denial_two : Decision
denial_two =
    decision_of effect_resolved_deny DecisionSource.approval_queue (codes "operator denied")

deny_response-opaque_example :
    deny_response codec denial_one (codes "r1") [] ≡ deny_response codec denial_two (codes "r1") []
deny_response-opaque_example =
    deny_response-opaque codec denial_one denial_two (codes "r1") []
      (unfold categorical_effect decision_of in refl)
      (unfold proxy_status_token decision_of in refl) (unfold decision_of in refl)

sf_quoted_string-roundtrip_example :
    ((body : Text) × (sf_quoted_string (codes "a\"b") ≡ b'"' ∷ body)
      × (sf_unquote body ≡ some (map visible (codes "a\"b"))))
    × All (λ c. (0x20 ≤ c) × (c < 0x7f)) (sf_quoted_string (codes "a\"b"))
sf_quoted_string-roundtrip_example = sf_quoted_string-roundtrip (codes "a\"b")

status-category_example :
    (is_forwarded effect_deny ≡ false)
    × (((status_from_effect effect_deny ≡ 470)
          × (categorical_effect effect_deny ≡ codes "declined"))
        ⊎ ((status_from_effect effect_deny ≡ 471)
            × (categorical_effect effect_deny ≡ codes "pending")))
status-category_example = status-category effect_deny refl
