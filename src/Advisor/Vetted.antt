-- ===== src/Advisor/Vetted.antt =====
-- internal/advisor/advisor.go: what can stand behind a verdict, and validate.
use trollbridge.Prelude.{
  ◌≡◌, ◌⊎◌, ◌≤◌, inl, inr, true, false, Option, none, some, arith, leb, leb→le, ◌==◌, nat_eq,
  list_eq, eq→≡, Bool-cases, ok,
}
use trollbridge.Text.{Text, codes}
use trollbridge.Types.{Decision, effect_allow, effect_deny, effect_ask_user, decision_of}
use trollbridge.Advisor.Service.{
  Input, Output, FailureLayer, Reply, Provider, Config, Host, advisor_decision, rank,
  confidence_meets_floor, is_one_of, known_effects, known_confidences, normal, engine_effect,
  known_only, validate,
}

-- The output's effect is the decision's, its confidence is a known word at or above the floor, and
-- of its modifiers the decision has the known ones.
abbrev pub Supports : Config → Output → Decision → Type 0
Supports cfg out d =
    (((normal out.effect ≡ codes "allow") × (d.effect ≡ effect_allow))
      ⊎ ((normal out.effect ≡ codes "deny") × (d.effect ≡ effect_deny)))
    × (is_one_of (normal out.confidence) known_confidences ≡ true)
    × (rank cfg.confidence_floor ≤ rank (normal out.confidence))
    × (d.modifiers ≡ known_only cfg.known_modifiers out.modifiers)

-- The provider gave an output that supports the decision.
abbrev pub Backed : Config → Option Provider → Decision → Type 0
Backed cfg prov d =
    (p : Provider) × (question : Input) × (out : Output) × (prov ≡ some p)
    × (p question ≡ Reply.output out)
    × Supports cfg out d

abbrev pub Settled : Config → Option Provider → Decision → Type 0
Settled cfg prov d = (d.effect ≡ effect_ask_user) ⊎ Backed cfg prov d

-- The advisor is off, or there is none, or it answered with an error.
abbrev pub Unanswered : Config → Option Provider → Type 0
Unanswered cfg prov =
    (cfg.enabled ≡ false)
    ⊎ ((prov ≡ none)
        ⊎ ((p : Provider) × (question : Input) × (layer : FailureLayer) × (text : Text) × (prov
              ≡ some p)
            × (p question ≡ Reply.failure layer text)))

-- The operator said what an advisor that cannot be asked is to mean.
abbrev pub ByDefault : Config → Decision → Type 0
ByDefault cfg d =
    ((cfg.on_unavailable ≡ codes "allow") × (d.effect ≡ effect_allow))
    ⊎ ((cfg.on_unavailable ≡ codes "deny") × (d.effect ≡ effect_deny))

abbrev pub Grounded : Config → Option Provider → Decision → Type 0
Grounded cfg prov d = Settled cfg prov d ⊎ (Unanswered cfg prov × ByDefault cfg d)

pub validate-Supports :
    (host : Host) (cfg : Config) (out : Output) (d : Decision) (id : Text)
    → validate host cfg out ≡ ok (d, id)
    → (d.effect ≡ effect_ask_user) ⊎ Supports cfg out d
unfolding validate engine_effect confidence_meets_floor advisor_decision decision_of
validate-Supports host cfg out d id h =
    elim (Bool-cases (is_one_of (normal out.effect) known_effects)) [
      | inr e ↦ absurd (ground (arith, e, h))
      | inl e ↦ elim (Bool-cases (is_one_of (normal out.confidence) known_confidences)) [
        | inr c ↦ absurd (ground (arith, e, c, h))
        | inl c ↦
            elim (Bool-cases (leb (rank cfg.confidence_floor) (rank (normal out.confidence)))) [
              | inr low ↦ inl (ground (arith, e, c, low, h))
              | inl high ↦ elim (Bool-cases (normal out.effect == codes "allow")) [
                | inl a ↦ inr (
                  inl (
                    eq→≡ (normal out.effect) (codes "allow") a,
                    ground (arith, e, c, high, a, h),
                  ),
                  c,
                  leb→le (rank cfg.confidence_floor) (rank (normal out.confidence)) high,
                  ground (arith, e, c, high, h),
                )
                | inr a ↦ elim (Bool-cases (normal out.effect == codes "deny")) [
                  | inl b ↦ inr (
                    inr (
                      eq→≡ (normal out.effect) (codes "deny") b,
                      ground (arith, e, c, high, a, b, h),
                    ),
                    c,
                    leb→le (rank cfg.confidence_floor) (rank (normal out.confidence)) high,
                    ground (arith, e, c, high, h),
                  )
                  | inr b ↦ inl (ground (arith, e, c, high, a, b, h))
                ]
              ]
            ]
      ]
    ]
