-- ===== src/Policy/Reload/Valid.antt =====
-- What every loaded rule satisfies.
use trollbridge.Prelude.{
  ℕ, ◌+◌, ◌≡◌, refl, ◌≢◌, ◌⊎◌, inl, inr, Bool, true, false, not, List, [], ◌∷◌, Option, none, some,
  arith, ◌==◌, nat_eq, list_eq, is_empty, any, map, Result, ok, err, guard, >>=-eq-ok, >>-eq-ok,
  guard-eq-ok, ok-injective, eq_iff, All, All-append, Bool-cases,
}
use mathlib.Core.Path.{subst}
use trollbridge.Prelude.Int.{pos, int_eq}
use trollbridge.Prelude.Sort.{All-sort_stable}
use trollbridge.Text.{Text}
use trollbridge.Policy.Rule.{Rule, Match}
use trollbridge.Policy.Reload.{
  LoadError, PatternValidator, Engine, Loader, is_rule_effect, check_modifiers, check_pattern,
  default_priority, check_rule, check_rules, or_error, load_files, before, reload,
}

-- Without a validator every pattern is accepted.
abbrev pub accepts : Option PatternValidator → Match → Bool
accepts none m = true
accepts (some valid) m = valid m.pattern (map (λ (c : Text × Text). c.0) m.components)

-- The component constraints of a rule are ones that the validator accepts, where there is one, and
-- a rule with no pattern has none.
abbrev pub PatternFits : Option PatternValidator → Rule → Type 0
PatternFits validator r =
    ((is_empty r.matcher.pattern ≡ true) × (is_empty r.matcher.components ≡ true))
    ⊎ ((is_empty r.matcher.pattern ≡ false) × (accepts validator r.matcher ≡ true))

pub record IsValidRule (known : List Text) (validator : Option PatternValidator) (r : Rule)
    : Type 0 where
  pub named : is_empty r.id ≡ false
  pub effect_known : is_rule_effect r.effect ≡ true
  pub modifiers_known : All (λ m. any (λ (k : Text). k == m) known ≡ true) r.modifiers
  pub pattern_fits : PatternFits validator r
  pub priority_set : r.priority ≢ pos 0

module _ (known : List Text) (validator : Option PatternValidator) (path : Text) where
  check_modifiers-ok :
      (id : Text) (ms : List Text)
      → check_modifiers known path id ms ≡ ok tt
      → All (λ m. any (λ (k : Text). k == m) known ≡ true) ms
  unfolding check_modifiers
  check_modifiers-ok id [] h = tt
  check_modifiers-ok id (m ∷ ms) h = elim (Bool-cases (any (λ (k : Text). k == m) known)) [
    | inl e ↦ (e, check_modifiers-ok id ms (rw e at h))
    | inr e ↦ ground (arith, e)
  ]

  check_pattern-ok : (r : Rule) → check_pattern validator path r ≡ ok tt → PatternFits validator r
  unfolding check_pattern
  check_pattern-ok r h = elim (Bool-cases (is_empty r.matcher.pattern)) [
    | inl e ↦ inl (e, ground (arith, e))
    | inr e ↦ inr (e, ground (arith, e, h))
  ]

  default_priority-IsValid :
      (r : Rule)
      → is_empty r.id ≡ false
      → is_rule_effect r.effect ≡ true
      → All (λ m. any (λ (k : Text). k == m) known ≡ true) r.modifiers
      → PatternFits validator r
      → IsValidRule known validator (default_priority r)
  unfolding default_priority
  default_priority-IsValid r a b c d = elim (Bool-cases (r.priority == pos 0)) [
    | inl e ↦ rw e (record {
      named = a;
      effect_known = b;
      modifiers_known = c;
      pattern_fits = d;
      priority_set = ground arith;
    })
    | inr e ↦ rw e (record {
      named = a;
      effect_known = b;
      modifiers_known = c;
      pattern_fits = d;
      priority_set = λ q. ground (arith, eq_iff r.priority (pos 0));
    })
  ]

  check_rule-ok :
      (i : ℕ) (r r' : Rule)
      → check_rule known validator path i r ≡ ok r'
      → IsValidRule known validator r'
  unfolding check_rule
  check_rule-ok i r r' h =
      let (a, h₁) = >>-eq-ok (guard (not (is_empty r.id)) _) _ h in
      let (b, h₂) = >>-eq-ok (guard (not (is_empty r.effect)) _) _ h₁ in
      let (c, h₃) = >>-eq-ok (guard (is_rule_effect r.effect) _) _ h₂ in
      let (d, h₄) = >>-eq-ok (check_modifiers known path r.id r.modifiers) _ h₃ in
      let (f, h₅) = >>-eq-ok (check_pattern validator path r) _ h₄ in
      subst (IsValidRule known validator) (ok-injective h₅) (
        default_priority-IsValid r (ground (arith, guard-eq-ok _ _ a)) (guard-eq-ok _ _ c)
          (check_modifiers-ok r.id r.modifiers d) (check_pattern-ok r f))

  check_rules-ok :
      (i : ℕ) (rs rs' : List Rule)
      → check_rules known validator path i rs ≡ ok rs'
      → All (IsValidRule known validator) rs'
  unfolding check_rules
  check_rules-ok i [] rs' h = subst (All (IsValidRule known validator)) (ok-injective h) tt
  check_rules-ok i (r ∷ rs) rs' h =
      let (a, ea, h₁) = >>=-eq-ok (check_rule known validator path i r) _ h in
      let (b, eb, h₂) = >>=-eq-ok (check_rules known validator path (i + 1) rs) _ h₁ in
      subst (All (IsValidRule known validator)) (ok-injective h₂)
        (check_rule-ok i r a ea, check_rules-ok (i + 1) rs b eb)

load_files-ok :
    (l : Loader) (known : List Text) (validator : Option PatternValidator) (paths : List Text)
    (out : List Rule × List ℕ)
    → load_files l known validator paths ≡ ok out
    → All (IsValidRule known validator) out.0
unfolding load_files
load_files-ok l known validator [] out h =
    subst (λ (o : List Rule × List ℕ). All (IsValidRule known validator) o.0) (ok-injective h) tt
load_files-ok l known validator (path ∷ paths) out h =
    let (bytes, _, h₁) = >>=-eq-ok (or_error (l.read path) _) _ h in
    let (raw, _, h₂) = >>=-eq-ok (or_error (l.parse bytes) _) _ h₁ in
    let (rules, er, h₃) = >>=-eq-ok (check_rules known validator path 0 raw) _ h₂ in
    let (rest, et, h₄) = >>=-eq-ok (load_files l known validator paths) _ h₃ in
    subst (λ (o : List Rule × List ℕ). All (IsValidRule known validator) o.0) (ok-injective h₄)
      (All-append _ rules rest.0 (check_rules-ok known validator path 0 raw rules er)
        (load_files-ok l known validator paths rest et))

-- A reload that fails leaves the engine as it was, and one that succeeds leaves rules that have all
-- passed the checks: an id, one of the four effects, known modifiers, a pattern that the validator
-- accepts, and a priority other than zero. It changes the rules and the version, and nothing else.
pub reload-IsValidRule :
    (l : Loader) (e : Engine)
    → let r = reload l e in
      ((x : LoadError) × (r.1 ≡ some x) × (r.0 ≡ e))
      ⊎ ((r.1 ≡ none)
          × (r.0 ≡ record e { rules = r.0.rules; version = r.0.version })
          × All (IsValidRule e.known_modifiers e.patterns) r.0.rules)
unfolding reload
reload-IsValidRule l e = go (load_files l e.known_modifiers e.patterns e.include) refl
  where
    go :
        (x : Result LoadError (List Rule × List ℕ))
        → load_files l e.known_modifiers e.patterns e.include ≡ x
        → let r = reload l e in
          ((x : LoadError) × (r.1 ≡ some x) × (r.0 ≡ e))
          ⊎ ((r.1 ≡ none)
              × (r.0 ≡ record e { rules = r.0.rules; version = r.0.version })
              × All (IsValidRule e.known_modifiers e.patterns) r.0.rules)
    go (err x) q = rw (q, reload) (inl (x, refl, refl))
    go (ok (rules, bytes)) q =
        rw (q, reload)
          (inr (refl, refl, All-sort_stable before _ rules (load_files-ok l _ _ _ _ q)))
