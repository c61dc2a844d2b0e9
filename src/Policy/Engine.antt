-- ===== src/Policy/Engine.antt =====
-- internal/policy/engine.go: the engine's state and Decide.
pub mod Claims
use trollbridge.Prelude.{
  ℕ, Bool, true, false, not, ◌&&◌, ◌||◌, List, [], ◌∷◌, ◌++◌, Option, none, some, ◌==◌, nat_eq,
  list_eq, if◌then◌else◌, is_empty,
}
use trollbridge.Text.{Text, codes}
use trollbridge.Types.{
  RequestEvent, Decision, DecisionSource, decision_of, effect_allow, effect_deny, effect_ask_user,
}
use trollbridge.Policy.History.{History}
use trollbridge.Policy.Rule.{Rule, Host, EvalContext, matches, matches_ignoring_body}
use trollbridge.Policy.Reload.{Engine}

-- The decision that a firing rule gives. `append` on a nil slice copies the modifiers.
unfoldable pub rule_decision : Rule → Decision
rule_decision r =
    record (decision_of r.effect DecisionSource.rule (
      if is_empty r.description
      then codes "rule " ++ r.id ++ codes " matched"
      else r.description)) { rule_id = r.id; modifiers = r.modifiers }

unfoldable pub body_missing_decision : Rule → Decision
body_missing_decision r =
    record (decision_of effect_deny DecisionSource.rule (
      codes "rule "
      ++ r.id
      ++ codes " required body inspection but body sample was unavailable; failing closed")) {
        rule_id = r.id;
      }

-- The rule has a body clause, the request has no sample, and every other clause fires.
unfoldable pub body_missing : Host → Rule → RequestEvent → EvalContext → Bool
body_missing env r req ctx =
    not (is_empty r.matcher.body_pattern)
    && is_empty req.body_sample
    && matches_ignoring_body env r.matcher req ctx

unfoldable pub default_decision : Text → Decision
default_decision mode =
    if mode == codes "default-allow"
    then decision_of effect_allow DecisionSource.default
        (codes "no rule matched; default-allow mode")
    else if mode == codes "default-ask"
    then decision_of effect_ask_user DecisionSource.default
        (codes "no rule matched; default-ask mode")
    else decision_of effect_deny DecisionSource.default (codes "no rule matched; default-deny mode")

-- The loop of Decide.
unfoldable pub decide_rules : Host → Text → List Rule → RequestEvent → EvalContext → Decision
decide_rules env mode [] req ctx = default_decision mode
decide_rules env mode (r ∷ rules) req ctx =
    if body_missing env r req ctx
    then body_missing_decision r
    else if matches env r.matcher req ctx
    then rule_decision r
    else decide_rules env mode rules req ctx

-- `now` is what the engine's clock returns.
unfoldable pub decide : Host → Engine → RequestEvent → ℕ → Decision
decide env e req now =
    decide_rules env e.mode e.rules req (record { now = now; history = some e.history })
