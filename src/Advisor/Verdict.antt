-- ===== src/Advisor/Verdict.antt =====
-- internal/advisor/advisor.go: the verdict of one call of Classify, and its cache.
use mathlib.Core.Path.{subst}
use trollbridge.Prelude.{
  ℕ, ◌≡◌, refl, sym, ◌∙◌, ap, inl, inr, Bool, true, not, List, Option, none, some, arith, ltb, ◌==◌,
  nat_eq, list_eq, eq→≡, if◌then◌else◌, Bool-cases, Option-cases, Result, ok, err,
}
use trollbridge.Prelude.Maps.{lookup, delete, lookup-delete-some, lookup-insert-some}
use trollbridge.Text.{Text, codes}
use trollbridge.Types.{RequestEvent, Decision, decision_of}
use trollbridge.Advisor.Service.{
  Input, Output, Reply, Provider, Config, CacheValue, Service, Host, advisor_decision,
  unavailable_decision, validate, cache_get, cache_put, build_cache_key,
}
use trollbridge.Advisor.Classify.{
  ListContext, record_digest, unavailable, invalid_decision, settle, ask_provider, from_cache,
  consult, classify, input_for,
}
use trollbridge.Advisor.Vetted.{Settled, Unanswered, Grounded, validate-Supports}

-- The cache holds settled verdicts only.
abbrev pub IsVetted : Service → Type 0
IsVetted s =
    (k : Text) (v : CacheValue) → lookup k s.cache ≡ some v → Settled s.cfg s.prov v.decision

-- A verdict with something behind it, and a service of the same settings that is vetted still.
abbrev pub Answers : Service → Decision × Text × Service → Type 0
Answers s (d, id, s') =
    Grounded s.cfg s.prov d × (s'.cfg ≡ s.cfg) × (s'.prov ≡ s.prov) × IsVetted s'

unavailable_decision-Grounded :
    (cfg : Config) (prov : Option Provider) (reason : Text)
    → Unanswered cfg prov
    → Grounded cfg prov (unavailable_decision cfg reason)
unfolding unavailable_decision advisor_decision decision_of
unavailable_decision-Grounded cfg prov reason u =
    elim (Bool-cases (cfg.on_unavailable == codes "allow")) [
      | inl a ↦ inr (u, inl (eq→≡ cfg.on_unavailable (codes "allow") a, ground (arith, a)))
      | inr a ↦ elim (Bool-cases (cfg.on_unavailable == codes "deny")) [
        | inl b ↦ inr (u, inr (eq→≡ cfg.on_unavailable (codes "deny") b, ground (arith, a, b)))
        | inr b ↦ inl (inl (ground (arith, a, b)))
      ]
    ]

unavailable-Answers :
    (now : ℕ) (req : RequestEvent) (reason : Text) (s s' : Service)
    → s'.cfg ≡ s.cfg
    → s'.prov ≡ s.prov
    → s'.cache ≡ s.cache
    → IsVetted s
    → Unanswered s.cfg s.prov
    → Answers s (unavailable now req reason s')
unfolding unavailable record_digest
unavailable-Answers now req reason s s' c p same v u = (
  subst (λ x. Grounded s.cfg s.prov (unavailable_decision x reason)) (sym c)
      (unavailable_decision-Grounded s.cfg s.prov reason u),
  c,
  p,
  λ k value e. rw (c, p) (v k value (ap (lookup k) (sym same) ∙ e)),
)

cache_get-Settled :
    (now : ℕ) (k : Text) (s : Service)
    → IsVetted s
    → IsVetted (record s { cache = (cache_get now k s.cache).1 })
      × ((v : CacheValue) → (cache_get now k s.cache).0 ≡ some v → Settled s.cfg s.prov v.decision)
unfolding cache_get
cache_get-Settled now k s v = elim (Option-cases (lookup k s.cache)) [
  | inl e ↦ (
    λ j value h. v j value (lookup-delete-some k j s.cache (gone_cache e j value h)).1,
    λ value h. absurd (ground (arith, e, h)),
  )
  | inr (found, e) ↦ elim (Bool-cases (ltb found.expires_at now)) [
    | inl late ↦ (
      λ j value h. v j value (lookup-delete-some k j s.cache (late_cache found e late j value h)).1,
      λ value h. absurd (ground (arith, e, late, h)),
    )
    | inr fresh ↦ (
      λ j value h. v j value (ground (arith, e, fresh, h)),
      λ value h. v k value (ground (arith, e, fresh, h)),
    )
  ]
]
  where
    gone_cache :
        lookup k s.cache ≡ none
        → (j : Text) (value : CacheValue) → lookup j (cache_get now k s.cache).1 ≡ some value
        → lookup j (delete k s.cache) ≡ some value
    gone_cache e j value h = ground (arith, e, h)

    late_cache :
        (found : CacheValue)
        → lookup k s.cache ≡ some found
        → ltb found.expires_at now ≡ true
        → (j : Text) (value : CacheValue) → lookup j (cache_get now k s.cache).1 ≡ some value
        → lookup j (delete k s.cache) ≡ some value
    late_cache found e late j value h = ground (arith, e, late, h)

settle-Answers :
    (host : Host) (now : ℕ) (req : RequestEvent) (key : Text) (out : Output) (p : Provider)
    (question : Input) (s s' : Service)
    → s'.cfg ≡ s.cfg
    → s'.prov ≡ s.prov
    → s'.cache ≡ s.cache
    → IsVetted s
    → s.prov ≡ some p
    → p question ≡ Reply.output out
    → Answers s (settle host now req key out s')
unfolding settle record_digest invalid_decision advisor_decision decision_of cache_put
settle-Answers host now req key out p question s s' c pr same v has_p answers =
    go (validate host s'.cfg out) refl
  where
    go :
        (r : Result Text (Decision × Text))
        → validate host s'.cfg out ≡ r
        → Answers s (settle host now req key out s')
    go (err problem) e =
        rw (e, settle)
          (
            inl (inl refl),
            c,
            pr,
            λ k value h. rw (c, pr) (v k value (ap (lookup k) (sym same) ∙ h)),
          )
    go (ok (d, id)) e =
        let settled : Settled s.cfg s.prov d =
          elim (validate-Supports host s.cfg out d id (ap (λ x. validate host x out) (sym c) ∙ e)) [
            | inl asks ↦ inl asks
            | inr supports ↦ inr (p, question, out, has_p, answers, supports)
          ] in
        rw (e, settle)
          (
            inl settled,
            c,
            pr,
            λ k value h.
                rw (c, pr)
                  (elim (lookup-insert-some key k _ s'.cache h) [
                    | inl (_, new) ↦ subst (λ x. Settled s.cfg s.prov x.decision) new settled
                    | inr (_, old) ↦ v k value (ap (lookup k) (sym same) ∙ old)
                  ]),
          )

ask_provider-Answers :
    (host : Host) (now : ℕ) (req : RequestEvent) (key : Text) (question : Input) (p : Provider)
    (s : Service)
    → IsVetted s
    → s.prov ≡ some p
    → Answers s (ask_provider host now req key question p s)
unfolding ask_provider
ask_provider-Answers host now req key question p s v has_p = go (p question) refl
  where
    go : (r : Reply) → p question ≡ r → Answers s (ask_provider host now req key question p s)
    go (Reply.failure layer text) e =
        rw (e, ask_provider)
          (unavailable-Answers now req _ s _ refl refl refl v
            (inr (inr (p, question, layer, text, has_p, e))))
    go (Reply.output out) e =
        rw (e, ask_provider)
          (settle-Answers host now req key out p question s _ refl refl refl v has_p e)

consult-Answers :
    (host : Host) (start now : ℕ) (req : RequestEvent) (key : Text) (question : Input)
    (o : Option Provider) (s : Service)
    → IsVetted s
    → s.prov ≡ o
    → Answers s (consult host start now req key question o s)
unfolding consult from_cache
consult-Answers host start now req key question none s v absent =
    unavailable-Answers start req (codes "advisor disabled") s s refl refl refl v (inr (inl absent))
consult-Answers host start now req key question (some p) s v has_p =
    go (cache_get start key s.cache).0 refl
  where
    looked : Service
    looked = record s { cache = (cache_get start key s.cache).1 }

    go :
        (hit : Option CacheValue)
        → (cache_get start key s.cache).0 ≡ hit
        → Answers s (from_cache host now req key question p hit looked)
    go none e =
        ask_provider-Answers host now req key question p looked (cache_get-Settled start key s v).0
          has_p
    go (some value) e = (
      inl ((cache_get-Settled start key s v).1 value e),
      refl,
      refl,
      (cache_get-Settled start key s v).0,
    )

-- A verdict of a service with a vetted cache has something behind it, and the cache stays vetted. The
-- verdict asks the user; or an output that the provider gave supports it, at a known confidence at or
-- above the floor and with known modifiers only; or the advisor could not be asked, and the verdict is
-- the one that on_unavailable names.
pub classify-Answers :
    (host : Host) (start now : ℕ) (req : RequestEvent) (version : Text)
    (headers : List (Text × Text)) (lists : ListContext) (s : Service)
    → IsVetted s
    → Answers s (classify host start now req version headers lists s)
unfolding classify
classify-Answers host start now req version headers lists s v = elim (Bool-cases s.cfg.enabled) [
  | inr off ↦
      subst (Answers s) (sym (branch off))
        (unavailable-Answers start req (codes "advisor disabled") s s refl refl refl v (inl off))
  | inl on ↦ subst (Answers s) (sym (branch on)) (
      consult-Answers host start now req (build_cache_key host version req)
        (input_for req version headers lists s.cfg) s.prov s v refl)
]
  where
    branch :
        {b : Bool}
        → s.cfg.enabled ≡ b
        → classify host start now req version headers lists s ≡ (
            if not b
            then unavailable start req (codes "advisor disabled") s
            else consult host start now req
                (build_cache_key host version req)
                (input_for req version headers lists s.cfg)
                s.prov
                s)
    branch e =
        ap
          (λ b.
            if not b
            then unavailable start req (codes "advisor disabled") s
            else consult host start now req (build_cache_key host version req)
                (input_for req version headers lists s.cfg) s.prov s)
          e
