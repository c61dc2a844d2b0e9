-- ===== src/Policy/Engine/Claims.antt =====
-- Which rule decides: the first in the active order that claims the request.
use trollbridge.Prelude.{
  ℕ, ◌≡◌, refl, sym, ap, ◌∙◌, eq→≡, ◌⊎◌, inl, inr, Bool, true, false, not, ◌&&◌, ◌||◌, List, [],
  ◌∷◌, ◌++◌, Option, some, arith, nat_eq, list_eq, if◌then◌else◌, is_empty, Bool-cases, All,
}
use mathlib.Core.Path.{subst}
use trollbridge.Prelude.Int.{◌≤ℤ◌}
use trollbridge.Text.{Text, codes}
use trollbridge.Types.{RequestEvent, Decision, decision_of, effect_allow}
use trollbridge.Policy.Rule.{
  Rule, Host, EvalContext, matches, matches_ignoring_body, body_matches, matches-body,
}
use trollbridge.Policy.Reload.{Engine, PatternValidator, is_rule_effect}
use trollbridge.Policy.Reload.Valid.{IsValidRule}
use trollbridge.Policy.Reload.Order.{IsDescending}
use trollbridge.Policy.Engine.{
  body_missing, body_missing_decision, rule_decision, decide_rules, decide, default_decision,
}

-- All clauses but the body's fire, and the body's fires too or cannot be looked at.
abbrev pub claims : Host → RequestEvent → EvalContext → Rule → Bool
claims env req ctx r =
    matches_ignoring_body env r.matcher req ctx
    && (is_empty req.body_sample || body_matches env r.matcher.body_pattern req.body_sample)

abbrev pub needs_body : RequestEvent → Rule → Bool
needs_body req r = not (is_empty r.matcher.body_pattern) && is_empty req.body_sample

-- What the deciding rule gives: a deny where its body clause could not be looked at, else its own
-- effect.
abbrev pub verdict : RequestEvent → Rule → Decision
verdict req r = if needs_body req r then body_missing_decision r else rule_decision r

step :
    (env : Host) (mode : Text) (r : Rule) (rules : List Rule) (req : RequestEvent)
    (ctx : EvalContext)
    → decide_rules env mode (r ∷ rules) req ctx
      ≡ (if claims env req ctx r then verdict req r else decide_rules env mode rules req ctx)
unfolding decide_rules body_missing body_matches
step env mode r rules req ctx = ground (arith, matches-body env r.matcher req ctx)

module _ (env : Host) (mode : Text) (req : RequestEvent) (ctx : EvalContext) where
  -- Either no rule claims the request and the mode decides, or the first rule that claims it does.
  pub decide_rules-first :
      (rules : List Rule)
      → (All (λ r. claims env req ctx r ≡ false) rules
          × (decide_rules env mode rules req ctx ≡ default_decision mode))
        ⊎ ((us : List Rule) × (r : Rule) × (vs : List Rule) × (rules ≡ us ++ r ∷ vs)
            × All (λ u. claims env req ctx u ≡ false) us
            × (claims env req ctx r ≡ true)
            × (decide_rules env mode rules req ctx ≡ verdict req r))
  decide_rules-first [] = inl (tt, unfold decide_rules in refl)
  decide_rules-first (r ∷ rules) = elim (Bool-cases (claims env req ctx r)) [
    | inl e ↦ inr ([], r, rules, refl, tt, e, step env mode r rules req ctx ∙ rw e refl)
    | inr e ↦ elim (decide_rules-first rules) [
      | inl (none_claims, d) ↦ inl ((e, none_claims), step env mode r rules req ctx ∙ rw e d)
      | inr (us, q, vs, split, before_q, c, d) ↦ inr (
        r ∷ us,
        q,
        vs,
        ap (◌∷◌ r) split,
        (e, before_q),
        c,
        step env mode r rules req ctx ∙ rw e d,
      )
    ]
  ]

module _ (env : Host) (e : Engine) (req : RequestEvent) (now : ℕ) where
  abbrev here : EvalContext
  here = record { now = now; history = some e.history }

  -- Of the rules that claim a request, none in an ordered list is above the first one found.
  highest :
      (us : List Rule) (r : Rule) (vs : List Rule)
      → IsDescending (us ++ r ∷ vs)
      → All (λ u. claims env req here u ≡ false) us
      → All (λ s. (claims env req here s ≡ false) ⊎ (s.priority ≤ℤ r.priority)) (us ++ r ∷ vs)
  highest [] r vs (h, s) a = (inr (omega arith), later vs h)
    where
      later :
          (ws : List Rule)
          → All (λ y. y.priority ≤ℤ r.priority) ws
          → All (λ s. (claims env req here s ≡ false) ⊎ (s.priority ≤ℤ r.priority)) ws
      later [] h = tt
      later (w ∷ ws) (h, hs) = (inr h, later ws hs)
  highest (u ∷ us) r vs (h, s) (c, a) = (inl c, highest us r vs s a)

  -- The decision is that of an active rule which claims the request while no rule in front of it
  -- does; where the rules stand by descending priority, every rule that claims the request is of at
  -- most its priority. With no rule that claims the request the mode decides.
  pub decide-highest :
      IsDescending e.rules
      → (All (λ r. claims env req here r ≡ false) e.rules
          × (decide env e req now ≡ default_decision e.mode))
        ⊎ ((us : List Rule) × (r : Rule) × (vs : List Rule) × (e.rules ≡ us ++ r ∷ vs)
            × All (λ u. claims env req here u ≡ false) us
            × (claims env req here r ≡ true)
            × (decide env e req now ≡ verdict req r)
            × All (λ s. (claims env req here s ≡ false) ⊎ (s.priority ≤ℤ r.priority)) e.rules)
  unfolding decide
  decide-highest s = elim (decide_rules-first env e.mode req here e.rules) [
    | inl none_claims ↦ inl none_claims
    | inr (us, r, vs, split, a, c, d) ↦ inr (
      us,
      r,
      vs,
      split,
      a,
      c,
      d,
      subst (All (λ s. (claims env req here s ≡ false) ⊎ (s.priority ≤ℤ r.priority))) (sym split)
          (highest us r vs (subst IsDescending split s) a),
    )
  ]

  All-mid {ℓ} :
      (P : Rule → Type ℓ) (us : List Rule) (r : Rule) (vs : List Rule) → All P (us ++ r ∷ vs) → P r
  All-mid P [] r vs (h, hs) = h
  All-mid P (u ∷ us) r vs (h, hs) = All-mid P us r vs hs

  -- With rules that passed the load, the engine only ever answers allow, deny, ask_user or ask_llm.
  pub decide-effect :
      (known : List Text) (validator : Option PatternValidator)
      → All (IsValidRule known validator) e.rules
      → is_rule_effect (decide env e req now).effect ≡ true
  unfolding decide default_decision rule_decision body_missing_decision is_rule_effect decision_of
  decide-effect known validator v = elim (decide_rules-first env e.mode req here e.rules) [
    | inl (_, d) ↦ rw d (ground arith)
    | inr (us, r, vs, split, _, _, d) ↦
        let valid =
          All-mid (IsValidRule known validator) us r vs
            (subst (All (IsValidRule known validator)) split v) in
        rw d (ground (arith, valid.effect_known))
  ]

  -- A request is allowed only by an active rule of the effect allow all of whose clauses fire, its
  -- body clause included, while no rule in front of it claims the request, and then the decision is
  -- the one this rule states; or by the mode default-allow where no active rule claims the request.
  pub decide-allow :
      (decide env e req now).effect ≡ effect_allow
      → ((us : List Rule) × (r : Rule) × (vs : List Rule) × (e.rules ≡ us ++ r ∷ vs)
          × All (λ u. claims env req here u ≡ false) us
          × (r.effect ≡ effect_allow)
          × (matches env r.matcher req here ≡ true)
          × (decide env e req now ≡ rule_decision r))
        ⊎ (All (λ r. claims env req here r ≡ false) e.rules × (e.mode ≡ codes "default-allow"))
  unfolding decide default_decision rule_decision body_missing_decision decision_of body_matches
  decide-allow h = elim (decide_rules-first env e.mode req here e.rules) [
    | inl (a, d) ↦ inr (
      a,
      eq→≡ e.mode (codes "default-allow") (ground (arith, ap (λ (x : Decision). x.effect) d, h)),
    )
    | inr (us, r, vs, split, a, c, d) ↦
        let shown = ap (λ (x : Decision). x.effect) d in
        let looked : needs_body req r ≡ false = ground (arith, shown, h) in
        inl (
          us,
          r,
          vs,
          split,
          a,
          ground (arith, shown, h),
          ground (arith, shown, h, c, matches-body env r.matcher req here),
          d ∙ rw looked refl,
        )
  ]
