-- ===== src/Approvals/Wait/Others.antt =====
-- internal/approvals/queue.go, Wait: sequences of the others' operations.
use trollbridge.Prelude.{
  ℕ, ◌≡◌, ◌≢◌, ◌<◌, ◌⊎◌, inl, inr, some, arith, Option-cases, Bool-cases, is_empty, nat_eq, list_eq,
}
use trollbridge.Text.{Text}
use trollbridge.Types.{Decision}
use trollbridge.Approvals.Store.{Channel, Hold, Queue, live, evict}
use trollbridge.Approvals.Store.Lemmas.{IsIndexed, live-cases}
use trollbridge.Approvals.Resolve.{
  approval, denial, advised, approve, deny, resolve_by_advisor, time_out, timeout_decision,
  cancel_waiter, remove_first, deliver,
}
use trollbridge.Approvals.Resolve.Cases.{
  approve-none, approve-some, deny-none, deny-some, advisor-none, advisor-some, time_out-none,
  time_out-some, cancel-none, cancel-last, cancel-more,
}
use trollbridge.Approvals.Steps.{
  Step, enqueues, approves, denies, advises, times_out, cancels, receives, reconfigures, shuts_down,
  IsConsistent, Step-IsConsistent,
}
use trollbridge.Approvals.Outcome.Once.{Step-IsGone}
use trollbridge.Approvals.Wait.Awaited.{
  Held, Answered, Carries, Carries-refl, taken-Carries, persist-Carries, last-Carries, more-Carries,
}
use trollbridge.Approvals.Wait.Drains.{
  shutdown-Carries, enqueue-Carries, receive-Carries, reconfigure-Carries,
}

-- The operation is not the waiter's own receive or cancellation.
abbrev pub Spares : {shown : ℕ → Text} {q r : Queue} → Channel → Step shown q r → Type 0
Spares c (cancels id x) = x ≢ c
Spares c (receives x d e) = x ≢ c
Spares c _ = Unit

-- Any sequence of operations of the others.
pub data Others (shown : ℕ → Text) (c : Channel) (q : Queue) : Queue → Type 0 where
  here : Others shown c q q
  next : {r s : Queue} → Others shown c q r → (p : Step shown r s) → Spares c p → Others shown c q s

module _ (id : Text) (c : Channel) (j : Text) (q : Queue) (v : IsIndexed q) where
  won :
      (a : ℕ) (h : Hold) (d : Decision)
      → live j q ≡ some (a, h)
      → Carries id c q (deliver h d (evict j a h q))
  won a h d e = let (p, s, _) = live-cases j q e in taken-Carries id c j a h d q v p s

  approve-Carries : (scope source : Text) → Carries id c q (approve j scope source q).1
  approve-Carries scope source = elim (Option-cases (live j q)) [
    | inl e ↦ rw (approve-none j q e scope source) (Carries-refl id c q)
    | inr ((a, h), e) ↦
        rw (approve-some j q a h e scope source)
          (persist-Carries id c _ _ _ _ _ (won a h (approval h scope) e))
  ]

  deny-Carries : (reason source : Text) → Carries id c q (deny j reason source q).1
  deny-Carries reason source = elim (Option-cases (live j q)) [
    | inl e ↦ rw (deny-none j q e reason source) (Carries-refl id c q)
    | inr ((a, h), e) ↦
        rw (deny-some j q a h e reason source)
          (persist-Carries id c _ _ _ _ _ (won a h (denial h reason) e))
  ]

  advisor-Carries : (d : Decision) → Carries id c q (resolve_by_advisor j d q).1
  advisor-Carries d = elim (Option-cases (live j q)) [
    | inl e ↦ rw (advisor-none j q e d) (Carries-refl id c q)
    | inr ((a, h), e) ↦ rw (advisor-some j q a h e d) (won a h (advised h d) e)
  ]

  time_out-Carries : (shown : ℕ → Text) → Carries id c q (time_out shown j q).1
  time_out-Carries shown = elim (Option-cases (live j q)) [
    | inl e ↦ rw (time_out-none j q e shown) (Carries-refl id c q)
    | inr ((a, h), e) ↦ rw (time_out-some j q a h e shown) (won a h (timeout_decision shown q) e)
  ]

  cancel-Carries : (x : Channel) → x ≢ c → Carries id c q (cancel_waiter j x q).1
  cancel-Carries x ne = elim (Option-cases (live j q)) [
    | inl e ↦ rw (cancel-none j q e x) (Carries-refl id c q)
    | inr ((a, h), e) ↦
        let (p, s, _) = live-cases j q e in
        elim (Bool-cases (is_empty (remove_first x h.waiters))) [
          | inl last ↦
              rw (cancel-last j q a h e x last) (last-Carries id c j a h _ x q v ne p s last)
          | inr more ↦ rw (cancel-more j q a h e x more) (more-Carries id c a h x q ne s)
        ]
  ]

Step-Carries :
    {shown : ℕ → Text} {q r : Queue} (id : Text) (c : Channel) (p : Step shown q r)
    → Spares c p
    → IsIndexed q
    → c < q.next_channel
    → Carries id c q r
Step-Carries id c (enqueues j now req base t fresh e) ne v low =
    enqueue-Carries id c j now req base _ _ t v fresh low e
Step-Carries id c (approves {q} j scope source) ne v low = approve-Carries id c j q v scope source
Step-Carries id c (denies {q} j reason source) ne v low = deny-Carries id c j q v reason source
Step-Carries id c (advises {q} j d) ne v low = advisor-Carries id c j q v d
Step-Carries {shown} id c (times_out {q} j) ne v low = time_out-Carries id c j q v shown
Step-Carries id c (cancels {q} j x) ne v low = cancel-Carries id c j q v x ne
Step-Carries id c (receives x d e) ne v low = receive-Carries id c x _ _ d ne e
Step-Carries id c (reconfigures {q} m t o) ne v low = reconfigure-Carries id c m t o q
Step-Carries id c (shuts_down {q}) ne v low = shutdown-Carries id c q v

-- A consistent queue on which the waiter is held or answered.
pub record IsAwaited (id : Text) (c : Channel) (q : Queue) : Type 0 where
  pub consistent : IsConsistent q
  pub low : c < q.next_channel
  pub stands : Held id c q ⊎ Answered id c q

pub Others-IsAwaited :
    {shown : ℕ → Text} (id : Text) (c : Channel) {q r : Queue}
    → Others shown c q r
    → IsAwaited id c q
    → IsAwaited id c r
Others-IsAwaited id c here w = w
Others-IsAwaited id c (next others p ne) w =
    let u = Others-IsAwaited id c others w in
    let k = Step-Carries id c p ne u.consistent.indexed u.low in
    record {
      consistent = Step-IsConsistent p u.consistent;
      low = omega (arith, u.low, k.channels);
      stands = elim u.stands [
        | inl held ↦ k.holds_on held
        | inr (d, sent, gone) ↦
            inr (d, k.sends_on d sent, Step-IsGone id p u.consistent.indexed gone)
      ];
    }
