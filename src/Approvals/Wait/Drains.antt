-- ===== src/Approvals/Wait/Drains.antt =====
-- internal/approvals/queue.go, Wait: a waiter through a shutdown, an arrival, another's receive and a
-- change of the settings.
use mathlib.Core.Path.{subst}
use trollbridge.Prelude.{
  ℕ, ◌≡◌, refl, sym, ap, ◌∙◌, ◌≢◌, ◌<◌, inl, inr, true, false, List, [], ◌∷◌, ◌++◌, Option, none,
  some, arith, Option-cases, Bool-cases, ok, ◌==◌, nat_eq, list_eq, eq_iff,
}
use trollbridge.Prelude.Maps.{update, lookup, lookup-insert_ne, update-ne}
use trollbridge.Text.{Text}
use trollbridge.Types.{RequestEvent, Decision}
use trollbridge.Approvals.Store.{Channel, Hold, Queue, dedup_key, reconfigure}
use trollbridge.Approvals.Store.Lemmas.{IsIndexed, has}
use trollbridge.Approvals.Enqueue.{Ticket, pending_under, attach, mint, enqueue}
use trollbridge.Approvals.Resolve.{deliver, shutdown_decision, drain, drain_one, shutdown, receive}
use trollbridge.Approvals.Invariant.{IsFresh, pending-cases}
use trollbridge.Approvals.Invariant.Waiters.{has-append}
use trollbridge.Approvals.Outcome.Fades.{shutdown-Fades}
use trollbridge.Approvals.Wait.Awaited.{Carries, broadcast-keeps, broadcast-answers}

module _ (id : Text) (c : Channel) where
  drain_one-sent :
      (b : ℕ) (q : Queue) (d : Decision) → q.sent c ≡ some d → (drain_one b q).sent c ≡ some d
  unfolding drain_one deliver
  drain_one-sent b q d e = elim (Option-cases (q.holds b)) [
    | inl n ↦ rw (n, drain_one) e
    | inr (h, s) ↦ elim (Bool-cases h.resolved) [
      | inl done ↦ rw (s, drain_one) (rw done e)
      | inr fresh ↦
          rw (s, drain_one) (rw fresh (broadcast-keeps id c h.waiters shutdown_decision d q.sent e))
    ]
  ]

  drain-sent :
      (items : List (Text × ℕ)) (q : Queue) (d : Decision)
      → q.sent c ≡ some d
      → (drain items q).sent c ≡ some d
  unfolding drain
  drain-sent [] q d e = e
  drain-sent ((j, b) ∷ items) q d e = drain-sent items (drain_one b q) d (drain_one-sent b q d e)

  drain_one-answers :
      (b : ℕ) (h : Hold) (q : Queue)
      → q.holds b ≡ some h
      → h.resolved ≡ false
      → has c h.waiters ≡ true
      → (d : Decision) × ((drain_one b q).sent c ≡ some d)
  unfolding drain_one deliver
  drain_one-answers b h q s fresh m =
      let (d, e) = broadcast-answers id c h.waiters shutdown_decision q.sent m in
      (d, rw (s, drain_one) (rw fresh e))

  drain_one-other :
      (b a : ℕ) (h : Hold) (q : Queue)
      → (b == a) ≡ false
      → q.holds a ≡ some h
      → (drain_one b q).holds a ≡ some h
  unfolding drain_one deliver
  drain_one-other b a h q ne t = elim (Option-cases (q.holds b)) [
    | inl n ↦ rw (n, drain_one) t
    | inr (g, s) ↦ elim (Bool-cases g.resolved) [
      | inl done ↦ rw (s, drain_one) (rw done t)
      | inr fresh ↦ rw (s, drain_one) (rw fresh (ground (arith, ne, t)))
    ]
  ]

  drain-answers :
      (items : List (Text × ℕ)) (a : ℕ) (h : Hold) (q : Queue)
      → lookup id items ≡ some a
      → q.holds a ≡ some h
      → h.resolved ≡ false
      → has c h.waiters ≡ true
      → (d : Decision) × ((drain items q).sent c ≡ some d)
  unfolding drain lookup
  drain-answers [] a h q p s fresh m = cc
  drain-answers ((j, b) ∷ items) a h q p s fresh m = elim (Bool-cases (b == a)) [
    | inl e ↦
        let (d, sent) = drain_one-answers b h q (ap q.holds ((eq_iff b a).0 e) ∙ s) fresh m in
        (d, drain-sent items (drain_one b q) d sent)
    | inr ne ↦
        drain-answers items a h (drain_one b q) (ground (arith, p, ne, eq_iff b a))
          (drain_one-other b a h q ne s) fresh m
  ]

  drain_one-channels : (b : ℕ) (q : Queue) → (drain_one b q).next_channel ≡ q.next_channel
  unfolding drain_one deliver
  drain_one-channels b q = elim (Option-cases (q.holds b)) [
    | inl n ↦ rw (n, drain_one) refl
    | inr (g, s) ↦ elim (Bool-cases g.resolved) [
      | inl done ↦ rw (s, drain_one) (rw done refl)
      | inr fresh ↦ rw (s, drain_one) (rw fresh refl)
    ]
  ]

  drain-channels :
      (items : List (Text × ℕ)) (q : Queue) → (drain items q).next_channel ≡ q.next_channel
  unfolding drain
  drain-channels [] q = refl
  drain-channels ((j, b) ∷ items) q = drain-channels items (drain_one b q) ∙ drain_one-channels b q

  pub shutdown-Carries : (q : Queue) → IsIndexed q → Carries id c q (shutdown q)
  unfolding shutdown lookup
  shutdown-Carries q v = record {
    holds_on = λ (a, h, r, t, m).
        let (f, u, fi, fresh, _) = v.items_fit id a r in
        let (g, kept, gi) = (shutdown-Fades q).keeps a f u in
        let (d, sent) = drain-answers q.items a h q r t (ground (arith, u, t, fresh)) m in
        inr (d, sent, record { used = (a, g, kept, gi ∙ fi); absent = refl });
    sends_on = λ d e. drain-sent q.items q d e;
    channels = omega (arith, drain-channels q.items q);
  }

  pub attach-Carries :
      (b : ℕ) (g : Hold) (q : Queue)
      → c < q.next_channel
      → q.holds b ≡ some g
      → Carries id c q (attach b g q)
  unfolding attach
  attach-Carries b g q low s = record {
    holds_on = λ (a, h, r, t, m). elim (Bool-cases (b == a)) [
      | inl e ↦ inl (
        a,
        record g { waiters = g.waiters ++ q.next_channel ∷ [] },
        r,
        ground (arith, e),
        ground (arith, e, eq_iff b a, s, t, m, has-append c g.waiters (q.next_channel ∷ [])),
      )
      | inr e ↦ inl (a, h, r, ground (arith, e, t), m)
    ];
    sends_on = λ d e. ground (arith, low, e);
    channels = omega arith;
  }

  pub mint-Carries :
      (j : Text) (now : ℕ) (req : RequestEvent) (base : Decision) (q : Queue)
      → IsIndexed q
      → IsFresh j q
      → c < q.next_channel
      → Carries id c q (mint j now req base q)
  unfolding mint
  mint-Carries j now req base q v fresh low = record {
    holds_on = λ (a, h, r, t, m).
        let (g, u, gi, _, _) = v.items_fit id a r in
        inl (
          a,
          h,
          lookup-insert_ne j id q.next_hold q.items (λ e. fresh a g u (gi ∙ sym e)) ∙ r,
          update-ne q.holds q.next_hold a _ (λ e. omega (arith, v.allocated a h t, e)) ∙ t,
          m,
        );
    sends_on = λ d e. ground (arith, low, e);
    channels = omega arith;
  }

  pub enqueue-Carries :
      (j : Text) (now : ℕ) (req : RequestEvent) (base : Decision) (q q' : Queue) (t : Ticket)
      → IsIndexed q
      → IsFresh j q
      → c < q.next_channel
      → enqueue j now req base q ≡ ok (t, q')
      → Carries id c q q'
  unfolding enqueue
  enqueue-Carries j now req base q q' t v fresh low h = go (pending_under (dedup_key req) q) refl
    where
      go : (o : Option (ℕ × Hold)) → pending_under (dedup_key req) q ≡ o → Carries id c q q'
      go (some (a, g)) e =
          subst (Carries id c q) (ground (arith, e, h))
            (attach-Carries a g q low (pending-cases (dedup_key req) q e).1)
      go none e =
          subst (Carries id c q) (ground (arith, e, h)) (mint-Carries j now req base q v fresh low)

  pub receive-Carries :
      (x : Channel) (q r : Queue) (d : Decision)
      → x ≢ c
      → receive x q ≡ some (d, r)
      → Carries id c q r
  unfolding receive
  receive-Carries x q r d ne e =
      let w : Carries id c q (record q { sent = update q.sent x none }) = record {
        holds_on = λ h. inl h;
        sends_on = λ y s. ground (arith, ne, s);
        channels = omega arith;
      } in
      subst (Carries id c q) (ground (arith, e)) w

  pub reconfigure-Carries : (m t : ℕ) (o : Text) (q : Queue) → Carries id c q (reconfigure m t o q)
  unfolding reconfigure
  reconfigure-Carries m t o q = record {
    holds_on = λ h. inl h;
    sends_on = λ d e. e;
    channels = omega arith;
  }
