-- ===== src/Server/Consult/Resolves.antt =====
-- internal/server/server.go: what consultAdvisorForHold does to the queue.
use trollbridge.Prelude.{
  ℕ, ◌≡◌, ◌⊎◌, refl, ap, inl, inr, false, ◌||◌, Option, some, arith, ◌==◌, nat_eq, list_eq, eq_iff,
  if◌then◌else◌, Bool-cases,
}
use trollbridge.Text.{Text, codes}
use trollbridge.Types.{RequestEvent, Decision, effect_allow, effect_deny}
use trollbridge.HostList.Match.{HostList}
use trollbridge.Approvals.Store.{Queue}
use trollbridge.Approvals.Resolve.{resolve_by_advisor}
use trollbridge.Advisor.Service.{Config, Provider, Service, Host, new_service}
use trollbridge.Advisor.Classify.{ListContext, classify}
use trollbridge.Advisor.Vetted.{Backed, Grounded}
use trollbridge.Advisor.Runs.{Calls, Calls-Grounded}
use trollbridge.Server.Consult.{advisor_headers, raw_patterns, consult_advisor_for_hold}

-- The queue is as it was, or the advisor resolved the hold with a verdict that its provider backs.
abbrev pub Resolves : Config → Option Provider → Text → Queue → Queue → Type 0
Resolves cfg prov hold_id q q' =
    (q' ≡ q) ⊎ ((d : Decision) × Backed cfg prov d × (q' ≡ (resolve_by_advisor hold_id d q).1))

Grounded-Resolves :
    (cfg : Config) (prov : Option Provider) (hold_id : Text) (q : Queue) (d : Decision)
    → (cfg.on_unavailable == codes "allow") ≡ false
    → (cfg.on_unavailable == codes "deny") ≡ false
    → Grounded cfg prov d
    → Resolves cfg prov hold_id q (
        if d.effect == effect_allow || d.effect == effect_deny
        then (resolve_by_advisor hold_id d q).1
        else q)
Grounded-Resolves cfg prov hold_id q d no_allow no_deny (inl (inl asks)) = inl (
    ap
      (λ e. if e == effect_allow || e == effect_deny then (resolve_by_advisor hold_id d q).1 else q)
      asks)
Grounded-Resolves cfg prov hold_id q d no_allow no_deny (inl (inr backed)) =
    elim (Bool-cases (d.effect == effect_allow || d.effect == effect_deny)) [
      | inl e ↦ inr (d, backed, rw e refl)
      | inr e ↦ inl (rw e refl)
    ]
Grounded-Resolves cfg prov hold_id q d no_allow no_deny (inr (u, inl (named, e))) =
    absurd (ground (arith, eq_iff cfg.on_unavailable (codes "allow"), named, no_allow))
Grounded-Resolves cfg prov hold_id q d no_allow no_deny (inr (u, inr (named, e))) =
    absurd (ground (arith, eq_iff cfg.on_unavailable (codes "deny"), named, no_deny))

-- With on_unavailable at its default, or at anything but allow and deny, the advisor leaves a hold
-- alone or resolves it with a verdict of its provider: after any earlier calls, the queue is unchanged,
-- or it is what ResolveByAdvisor makes of a decision that an output of the provider supports, at a
-- known confidence at or above the floor and with known modifiers only.
pub consult_advisor_for_hold-Resolves :
    (host : Host) (cfg : Config) (prov : Option Provider) (s : Service)
    → Calls host (new_service cfg prov) s
    → ((new_service cfg prov).cfg.on_unavailable == codes "allow") ≡ false
    → ((new_service cfg prov).cfg.on_unavailable == codes "deny") ≡ false
    → (start now : ℕ) (req : RequestEvent) (version hold_id : Text) (allow deny : Option HostList)
      (q : Queue)
    → Resolves
        (new_service cfg prov).cfg
        prov
        hold_id
        q
        (consult_advisor_for_hold host start now req version hold_id allow deny s q).1
unfolding consult_advisor_for_hold
consult_advisor_for_hold-Resolves host cfg prov s calls no_allow no_deny start now req version
      hold_id allow deny q =
    let lists : ListContext = some (raw_patterns allow, raw_patterns deny) in
    let headers = advisor_headers req.headers in
    Grounded-Resolves (new_service cfg prov).cfg prov hold_id q
      (classify host start now req version headers lists s).0 no_allow no_deny
      (Calls-Grounded host cfg prov s calls start now req version headers lists)
