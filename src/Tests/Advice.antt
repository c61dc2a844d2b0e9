-- ===== src/Tests/Advice.antt =====
-- The advisor with a provider that allows everything, on a queue with one hold.
use trollbridge.Prelude.{◌≡◌, refl, true, false, [], ◌∷◌, none, some, ◌==◌, list_eq, nat_eq}
use trollbridge.Text.{codes}
use trollbridge.Advisor.Service.{Reply, Provider, Config, Service, Host, new_service}
use trollbridge.Advisor.Classify.{classify}
use trollbridge.Advisor.Vetted.{Grounded}
use trollbridge.Advisor.Runs.{Calls, Calls-Grounded}
use trollbridge.Server.Consult.{consult_advisor_for_hold}
use trollbridge.Server.Consult.Resolves.{Resolves, consult_advisor_for_hold-Resolves}
use trollbridge.Tests.Samples.{request, held_queue}

abbrev plain_host : Host
plain_host = record { hash_string = λ t. t; quoted = λ t. t }

abbrev yes : Provider
yes question = Reply.output (record {
  effect = codes "Allow";
  scope = codes "once";
  reason = codes "read only";
  modifiers = codes "strip_cookies" ∷ [];
  confidence = codes " high ";
  advisor_id = codes "model";
})

abbrev settings : Config
settings = record {
  enabled = true;
  confidence_floor = [];
  on_unavailable = [];
  cache_ttl = 0;
  timeout = 0;
  known_modifiers = [];
  directives = [];
  mode = [];
}

-- The service after one call, so that its cache has the verdict.
abbrev asked_once : Service
asked_once =
    (classify plain_host 1000 2000 request (codes "v1") [] none (new_service settings (some yes))).2

one_call : Calls plain_host (new_service settings (some yes)) asked_once
one_call = Calls.next 1000 2000 request (codes "v1") [] none Calls.here

Calls-Grounded_example :
    Grounded
      (new_service settings (some yes)).cfg
      (some yes)
      (classify plain_host 3000 4000 request (codes "v1") [] none asked_once).0
Calls-Grounded_example =
    Calls-Grounded plain_host settings (some yes) asked_once one_call 3000 4000 request (codes "v1")
      [] none

not_allow : ((new_service settings (some yes)).cfg.on_unavailable == codes "allow") ≡ false
unfolding new_service
not_allow = refl

not_deny : ((new_service settings (some yes)).cfg.on_unavailable == codes "deny") ≡ false
unfolding new_service
not_deny = refl

consult_advisor_for_hold-Resolves_example :
    Resolves
      (new_service settings (some yes)).cfg
      (some yes)
      (codes "hold-1")
      held_queue
      (consult_advisor_for_hold plain_host 3000 4000 request
        (codes "v1")
        (codes "hold-1")
        none
        none
        asked_once
        held_queue).1
consult_advisor_for_hold-Resolves_example =
    consult_advisor_for_hold-Resolves plain_host settings (some yes) asked_once one_call not_allow
      not_deny 3000 4000 request (codes "v1") (codes "hold-1") none none held_queue
