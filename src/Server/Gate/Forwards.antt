-- ===== src/Server/Gate/Forwards.antt =====
-- Which requests the proxy forwards without asking, and which it holds.
use trollbridge.Prelude.{
  ℕ, ◌≡◌, ◌↔◌, ◌⊎◌, inl, inr, refl, true, false, Option, none, some, arith, ◌==◌, nat_eq, list_eq,
  Option-cases, Bool-cases, is_some, Result, ok, err, eq→≡,
}
use trollbridge.Text.{Text, codes}
use trollbridge.Types.{
  RequestEvent, Decision, DecisionSource, decision_of, effect_allow, effect_deny,
  effect_resolved_allow,
}
use trollbridge.HostList.Parse.{Pattern}
use trollbridge.HostList.Match.{match}
use trollbridge.Policy.Rule.{Host}
use trollbridge.Policy.Engine.{decide}
use trollbridge.Approvals.Store.{Queue}
use trollbridge.Approvals.Enqueue.{Ticket, enqueue}
use trollbridge.Server.OpenMode.{state}
use trollbridge.Server.Gate.{
  Server, Verdict, fast_path_decide, deny_hit, allow_hit, gate, gate_http, hold, handle_http,
  is_held, is_forwarded, open_mode_allow, queue_full,
}

-- The entry of each list that a plain HTTP request matches.
abbrev pub denied : Server → RequestEvent → Option Pattern
denied s req = match s.deny req.method (codes "http") req.host req.port req.path

abbrev pub allowed : Server → RequestEvent → Option Pattern
allowed s req = match s.allow req.method (codes "http") req.host req.port req.path

Result-cases : {E A : Type 0} (r : Result E A) → ((x : A) × (r ≡ ok x)) ⊎ ((x : E) × (r ≡ err x))
Result-cases (ok x) = inl (x, refl)
Result-cases (err x) = inr (x, refl)

module _ (env : Host) (s : Server) (req : RequestEvent) (now : ℕ) where
  abbrev pub by_engine : Decision
  by_engine = decide env s.engine req now

  gate-open : (state s.open_mode now).0 ≡ true → gate_http env s req now ≡ open_mode_allow
  unfolding gate_http gate
  gate-open e = rw e refl

  gate-denied :
      (pat : Pattern)
      → (state s.open_mode now).0 ≡ false
      → denied s req ≡ some pat
      → gate_http env s req now ≡ deny_hit pat
  unfolding gate_http gate fast_path_decide
  gate-denied pat e f = rw (e, f) refl

  gate-allowed :
      (pat : Pattern)
      → (state s.open_mode now).0 ≡ false
      → denied s req ≡ none
      → allowed s req ≡ some pat
      → gate_http env s req now ≡ allow_hit pat
  unfolding gate_http gate fast_path_decide
  gate-allowed pat e f g = rw (e, f, g) refl

  gate-engine :
      (state s.open_mode now).0 ≡ false
      → denied s req ≡ none
      → allowed s req ≡ none
      → gate_http env s req now ≡ by_engine
  unfolding gate_http gate fast_path_decide
  gate-engine e f g = rw (e, f, g) refl

  -- What a decision at the gate means, case by case.
  gate-cases :
      ((state s.open_mode now).0 ≡ true)
      ⊎ (((state s.open_mode now).0 ≡ false)
          × (((p : Pattern) × (denied s req ≡ some p))
              ⊎ ((denied s req ≡ none)
                  × (((p : Pattern) × (allowed s req ≡ some p)) ⊎ (allowed s req ≡ none)))))
  gate-cases = elim (Bool-cases (state s.open_mode now).0) [
    | inl e ↦ inl e
    | inr e ↦ elim (Option-cases (denied s req)) [
      | inr (p, f) ↦ inr (e, inl (p, f))
      | inl f ↦ elim (Option-cases (allowed s req)) [
        | inr (p, g) ↦ inr (e, inr (f, inl (p, g)))
        | inl g ↦ inr (e, inr (f, inr g))
      ]
    ]
  ]

  -- While the open-mode window is closed the deny list wins over the allow list, and both over the
  -- rules: either the deny list matches and the request is denied by that entry, or only the allow list
  -- does and it is allowed by that entry, or neither does and the decision is the engine's.
  pub gate_http-closed :
      (state s.open_mode now).0 ≡ false
      → let d = gate_http env s req now in
        ((pat : Pattern) × (denied s req ≡ some pat)
          × (d.effect ≡ effect_deny)
          × (d.source ≡ DecisionSource.deny_list)
          × (d.rule_id ≡ pat.source))
        ⊎ ((pat : Pattern) × (denied s req ≡ none)
            × (allowed s req ≡ some pat)
            × (d.effect ≡ effect_allow)
            × (d.source ≡ DecisionSource.allow_list)
            × (d.rule_id ≡ pat.source))
        ⊎ ((denied s req ≡ none) × (allowed s req ≡ none) × (d ≡ by_engine))
  unfolding deny_hit allow_hit decision_of
  gate_http-closed e = elim gate-cases [
    | inl open_now ↦ ground (arith, open_now, e)
    | inr (_, inl (p, f)) ↦ inl (
      p,
      f,
      rw (gate-denied p e f) refl,
      rw (gate-denied p e f) refl,
      rw (gate-denied p e f) refl,
    )
    | inr (_, inr (f, inl (p, g))) ↦ inr (
        inl (
          p,
          f,
          g,
          rw (gate-allowed p e f g) refl,
          rw (gate-allowed p e f g) refl,
          rw (gate-allowed p e f g) refl,
        ))
    | inr (_, inr (f, inr g)) ↦ inr (inr (f, g, gate-engine e f g))
  ]

  -- The gate's decision is one to forward exactly if the window is open, or the deny list does not match
  -- and the allow list does, or neither matches and the engine allows.
  abbrev pub IsAdmitted : Type 0
  IsAdmitted =
      ((state s.open_mode now).0 ≡ true)
      ⊎ ((denied s req ≡ none)
          × ((is_some (allowed s req) ≡ true)
              ⊎ ((allowed s req ≡ none) × (is_forwarded by_engine.effect ≡ true))))

  gate-IsAdmitted : (is_forwarded (gate_http env s req now).effect ≡ true) ↔ IsAdmitted
  unfolding is_forwarded deny_hit allow_hit open_mode_allow decision_of
  gate-IsAdmitted = elim gate-cases [
    | inl e ↦ (λ h. inl e, λ h. rw (gate-open e) refl)
    | inr (e, inl (p, f)) ↦ (
      λ h. ground (arith, rw (gate-denied p e f) at h),
      λ h. elim h [ inl k ↦ cc | inr (k, _) ↦ cc ],
    )
    | inr (e, inr (f, inl (p, g))) ↦
        (λ h. inr (f, inl (rw g refl)), λ h. rw (gate-allowed p e f g) refl)
    | inr (e, inr (f, inr g)) ↦ (
      λ h. inr (f, inr (g, rw (gate-engine e f g) at h)),
      λ h. elim h [
        | inl k ↦ cc
        | inr (_, inl k) ↦ ground (arith, k, g)
        | inr (_, inr (_, k)) ↦ rw (gate-engine e f g) k
      ],
    )
  ]

forwarded_not_held : (e : Text) → is_forwarded e ≡ true → is_held e ≡ false
unfolding is_forwarded is_held
forwarded_not_held e h = elim (Bool-cases (e == effect_allow)) [
  | inl k ↦ rw (eq→≡ e effect_allow k) refl
  | inr k ↦ rw (eq→≡ e effect_resolved_allow (ground (arith, h, k))) refl
]

hold-cases :
    (error new_id : Text) (req : RequestEvent) (base : Decision) (now : ℕ) (q : Queue)
    → (hold error new_id req base now q ≡ Verdict.decided (queue_full error))
      ⊎ ((t : Ticket) × (q' : Queue) × (enqueue new_id now req base q ≡ ok (t, q'))
          × (hold error new_id req base now q ≡ Verdict.waiting t q'))
unfolding hold
hold-cases error new_id req base now q = elim (Result-cases (enqueue new_id now req base q)) [
  | inl ((t, q'), e) ↦ inr (t, q', e, rw (e, hold) refl)
  | inr (x, e) ↦ inl (rw (e, hold) refl)
]

module _ (env : Host) (s : Server) (error new_id : Text) (req : RequestEvent) (now : ℕ)
    (q : Queue) where
  handle-held :
      is_held (gate_http env s req now).effect ≡ true
      → handle_http env s error new_id req now q
        ≡ hold error new_id req (gate_http env s req now) now q
  unfolding handle_http is_held
  handle-held k = ground (arith, k)

  handle-decided :
      is_held (gate_http env s req now).effect ≡ false
      → handle_http env s error new_id req now q ≡ Verdict.decided (gate_http env s req now)
  unfolding handle_http is_held
  handle-decided k = ground (arith, k)

  -- A plain HTTP request is forwarded without waiting exactly if the window is open, or the deny list
  -- does not match and either the allow list does or, with neither matching, the engine's decision
  -- is one to forward.
  pub handle_http-forwards :
      ((d : Decision) × (handle_http env s error new_id req now q ≡ Verdict.decided d)
        × (is_forwarded d.effect ≡ true))
      ↔ IsAdmitted env s req now
  unfolding is_forwarded queue_full decision_of
  handle_http-forwards = (
    λ (d, e, f).
        (gate-IsAdmitted env s req now).0
          (elim (Bool-cases (is_held (gate_http env s req now).effect)) [
            | inr k ↦ ground (arith, handle-decided k, e, f)
            | inl k ↦ elim (hold-cases error new_id req (gate_http env s req now) now q) [
              | inl full ↦ ground (arith, handle-held k, e, f, full)
              | inr (t, q', _, w) ↦ ground (arith, handle-held k, e, w)
            ]
          ]),
    λ h.
        let f = (gate-IsAdmitted env s req now).1 h in
        (gate_http env s req now, handle-decided (forwarded_not_held _ f), f),
  )

  held :
      (t : Ticket) (q' : Queue)
      → handle_http env s error new_id req now q ≡ Verdict.waiting t q'
      → (is_held (gate_http env s req now).effect ≡ true)
        × (enqueue new_id now req (gate_http env s req now) q ≡ ok (t, q'))
  held t q' h = elim (Bool-cases (is_held (gate_http env s req now).effect)) [
    | inr k ↦ ground (arith, handle-decided k, h)
    | inl k ↦ elim (hold-cases error new_id req (gate_http env s req now) now q) [
      | inl full ↦ ground (arith, handle-held k, h, full)
      | inr (t', q'', m, w) ↦ (k, ground (arith, handle-held k, h, w, m))
    ]
  ]

  -- A plain HTTP request becomes a waiter of the approval queue only while the window is closed, only
  -- if neither list matches it and the engine asks; the ticket and the queue are those that the
  -- queue gave for the engine's decision.
  pub handle_http-waits :
      (t : Ticket) (q' : Queue)
      → handle_http env s error new_id req now q ≡ Verdict.waiting t q'
      → ((state s.open_mode now).0 ≡ false)
        × (denied s req ≡ none)
        × (allowed s req ≡ none)
        × (is_held (by_engine env s req now).effect ≡ true)
        × (enqueue new_id now req (by_engine env s req now) q ≡ ok (t, q'))
  unfolding is_held deny_hit allow_hit open_mode_allow decision_of
  handle_http-waits t q' h =
      let (k, m) = held t q' h in
      elim (gate-cases env s req now) [
        | inl e ↦ ground (arith, rw (gate-open env s req now e) at k)
        | inr (e, inl (p, f)) ↦ ground (arith, rw (gate-denied env s req now p e f) at k)
        | inr (e, inr (f, inl (p, g))) ↦
            ground (arith, rw (gate-allowed env s req now p e f g) at k)
        | inr (e, inr (f, inr g)) ↦
            let same = gate-engine env s req now e f g in (e, f, g, rw same at k, rw same at m)
      ]
