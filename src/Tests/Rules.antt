-- ===== src/Tests/Rules.antt =====
-- The policy engine on concrete rules.
use mathlib.Core.List.{Perm}
use trollbridge.Prelude.{
  ℕ, ◌≡◌, ◌⊎◌, ◌↔◌, ◌<◌, ◌+◌, ◌%◌, inl, refl, true, false, arith, List, [], ◌∷◌, ◌++◌, none, some,
  ok, All, any, filter_by, ◌==◌,
}
use trollbridge.Prelude.Int.{ℤ, pos, ◌≤ℤ◌, int_eq}
use trollbridge.Text.{Text, codes}
use trollbridge.Types.{Decision, DecisionSource, decision_of, effect_allow, effect_deny}
use trollbridge.Policy.Window.{in_range}
use trollbridge.Policy.Window.Cycle.{minutes_between, in_range_iff}
use trollbridge.Policy.History.{
  History, HistoryEntry, PriorDecisionMatch, match_history, new_history,
}
use trollbridge.Policy.History.Recent.{Event, record_all, entries, last_of, record_all-new}
use trollbridge.Policy.History.Within.{match_history-any, recent}
use trollbridge.Policy.Rule.{Rule, matches, EvalContext}
use trollbridge.Policy.Reload.{
  Engine, Loader, LoadError, load_files, before, reload, is_rule_effect,
}
use trollbridge.Policy.Reload.Valid.{IsValidRule, reload-IsValidRule}
use trollbridge.Policy.Reload.Order.{IsDescending, reload-IsSorted}
use trollbridge.Policy.Engine.{decide, decide_rules, default_decision, rule_decision}
use trollbridge.Policy.Engine.Claims.{
  claims, verdict, decide_rules-first, decide-highest, decide-effect, decide-allow,
}
use trollbridge.Tests.Samples.{request, asking, allowing, bare_host_env, engine_of, loader, context}

abbrev rules : List Rule
rules = asking ∷ allowing ∷ []

abbrev mode : Text
mode = codes "default-deny"

decide_rules-first_example :
    (All (λ r. claims bare_host_env request context r ≡ false) rules
      × (decide_rules bare_host_env mode rules request context ≡ default_decision mode))
    ⊎ ((us : List Rule) × (r : Rule) × (vs : List Rule) × (rules ≡ us ++ r ∷ vs)
        × All (λ u. claims bare_host_env request context u ≡ false) us
        × (claims bare_host_env request context r ≡ true)
        × (decide_rules bare_host_env mode rules request context ≡ verdict request r))
decide_rules-first_example = decide_rules-first bare_host_env mode request context rules

abbrev at_1000 : EvalContext
at_1000 = record { now = 1000; history = some (record { buf = []; cap = 4 }) }

decide-highest_example :
    (All (λ r. claims bare_host_env request at_1000 r ≡ false) rules
      × (decide bare_host_env (engine_of rules) request 1000 ≡ default_decision mode))
    ⊎ ((us : List Rule) × (r : Rule) × (vs : List Rule) × (rules ≡ us ++ r ∷ vs)
        × All (λ u. claims bare_host_env request at_1000 u ≡ false) us
        × (claims bare_host_env request at_1000 r ≡ true)
        × (decide bare_host_env (engine_of rules) request 1000 ≡ verdict request r)
        × All
            (λ s. (claims bare_host_env request at_1000 s ≡ false) ⊎ (s.priority ≤ℤ r.priority))
            rules)
decide-highest_example =
    decide-highest bare_host_env (engine_of rules) request 1000 ((omega arith, tt), (tt, tt))

rules-IsValidRule : All (IsValidRule [] none) rules
unfolding is_rule_effect
rules-IsValidRule = (
  record {
    named = refl;
    effect_known = refl;
    modifiers_known = tt;
    pattern_fits = inl (refl, refl);
    priority_set = λ e. ground (arith, e);
  },
  (
    record {
      named = refl;
      effect_known = refl;
      modifiers_known = tt;
      pattern_fits = inl (refl, refl);
      priority_set = λ e. ground (arith, e);
    },
    tt,
  ),
)

decide-effect_example :
    is_rule_effect (decide bare_host_env (engine_of rules) request 1000).effect ≡ true
decide-effect_example =
    decide-effect bare_host_env (engine_of rules) request 1000 [] none rules-IsValidRule

allowed_here : (decide bare_host_env (engine_of (allowing ∷ [])) request 1000).effect ≡ effect_allow
unfolding trollbridge.Policy.Engine.body_missing trollbridge.Policy.Engine.decide_rules
    trollbridge.Policy.Engine.decide trollbridge.Policy.Engine.rule_decision
    trollbridge.Policy.Rule.matches trollbridge.Policy.Rule.match_host
    trollbridge.Policy.Rule.host_pattern_matches trollbridge.Policy.Rule.bare_host
    trollbridge.Policy.Rule.split_host_port trollbridge.Policy.Rule.time_matches
    trollbridge.Policy.Rule.prior_matches trollbridge.Policy.Rule.body_matches
    trollbridge.Policy.Rule.matches_ignoring_body trollbridge.Text.to_lower
    trollbridge.Text.trim_space trollbridge.Text.has_prefix trollbridge.Text.has_suffix
    trollbridge.Text.cut_last_byte trollbridge.Text.cut_byte trollbridge.Text.strip_prefix
    trollbridge.Types.decision_of
allowed_here = refl

decide-allow_example :
    ((us : List Rule) × (r : Rule) × (vs : List Rule) × (allowing ∷ [] ≡ us ++ r ∷ vs)
      × All (λ u. claims bare_host_env request at_1000 u ≡ false) us
      × (r.effect ≡ effect_allow)
      × (matches bare_host_env r.matcher request at_1000 ≡ true)
      × (decide bare_host_env (engine_of (allowing ∷ [])) request 1000 ≡ rule_decision r))
    ⊎ (All (λ r. claims bare_host_env request at_1000 r ≡ false) (allowing ∷ [])
        × (mode ≡ codes "default-allow"))
decide-allow_example =
    decide-allow bare_host_env (engine_of (allowing ∷ [])) request 1000 allowed_here

reload-IsValidRule_example :
    ((x : LoadError) × ((reload loader (engine_of [])).1 ≡ some x)
      × ((reload loader (engine_of [])).0 ≡ engine_of []))
    ⊎ (((reload loader (engine_of [])).1 ≡ none)
        × ((reload loader (engine_of [])).0 ≡ record (engine_of []) {
          rules = (reload loader (engine_of [])).0.rules;
          version = (reload loader (engine_of [])).0.version;
        })
        × All (IsValidRule [] none) (reload loader (engine_of [])).0.rules)
reload-IsValidRule_example = reload-IsValidRule loader (engine_of [])

loaded :
    load_files loader [] none (codes "rules.yaml" ∷ [])
    ≡ ok (allowing ∷ asking ∷ [], codes "rules" ++ [])
unfolding trollbridge.Policy.Reload.load_files trollbridge.Policy.Reload.check_rules
    trollbridge.Policy.Reload.check_rule trollbridge.Policy.Reload.check_modifiers
    trollbridge.Policy.Reload.check_pattern trollbridge.Policy.Reload.default_priority
    trollbridge.Policy.Reload.is_rule_effect
loaded = refl

reload-IsSorted_example :
    Perm (reload loader (engine_of [])).0.rules (allowing ∷ asking ∷ [])
    × IsDescending (reload loader (engine_of [])).0.rules
    × ((k : ℤ)
        → filter_by (λ (r : Rule). r.priority == k) (reload loader (engine_of [])).0.rules
          ≡ filter_by (λ (r : Rule). r.priority == k) (allowing ∷ asking ∷ []))
reload-IsSorted_example =
    reload-IsSorted loader (engine_of []) (allowing ∷ asking ∷ []) (codes "rules") loaded

abbrev event_at : ℕ → Event
event_at t = record {
  request = request;
  decision = decision_of effect_deny DecisionSource.rule [];
  when = t;
}

record_all-new_example :
    (record_all (new_history 2) (event_at 1 ∷ event_at 2 ∷ event_at 3 ∷ [])).buf
    ≡ last_of 2 (entries (event_at 1 ∷ event_at 2 ∷ event_at 3 ∷ []))
record_all-new_example = record_all-new 2 (event_at 1 ∷ event_at 2 ∷ event_at 3 ∷ []) (omega arith)

abbrev entry_at : ℕ → HistoryEntry
entry_at t = record {
  when = t;
  identity_id = codes "alice";
  host = codes "api.github.com";
  effect = effect_deny;
  rule_id = [];
}

abbrev past : History
past = record { buf = entry_at 1 ∷ entry_at 5 ∷ []; cap = 4 }

abbrev denied_lately : PriorDecisionMatch
denied_lately = record {
  effect = effect_deny;
  same_identity = true;
  same_host = true;
  within_seconds = pos 60;
}

match_history-any_example :
    match_history past request denied_lately 10 ≡ any (recent request denied_lately 60 10) past.buf
match_history-any_example =
    match_history-any past request denied_lately 60 10 ((omega arith, tt), (tt, tt)) refl
      (omega arith)

-- A window of 317 years wraps round to one that ends in the future, and nothing is in it.
wrapped_window :
    match_history past request (record denied_lately { within_seconds = pos 9_999_999_999 }) 10
    ≡ false
unfolding match_history trollbridge.Policy.History.match_newest trollbridge.Policy.History.is_stale
    trollbridge.Policy.History.cutoff_offset trollbridge.Policy.History.int64_of
wrapped_window = refl

in_range_iff_example :
    (in_range 1320 360 60 ≡ true)
    ↔ ((d : ℕ) × (d < minutes_between 1320 360) × ((1320 + d) % 1440 ≡ 60))
in_range_iff_example = in_range_iff 1320 360 60 (omega arith) (omega arith) (omega arith)
