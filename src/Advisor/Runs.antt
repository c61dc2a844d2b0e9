-- ===== src/Advisor/Runs.antt =====
-- internal/advisor/advisor.go: runs of calls of Classify from a new service.
use mathlib.Core.Path.{subst}
use trollbridge.Prelude.{ℕ, ◌≡◌, refl, ◌∙◌, List, Option, nat_eq, list_eq}
use trollbridge.Prelude.Maps.{lookup}
use trollbridge.Text.{Text}
use trollbridge.Types.{RequestEvent}
use trollbridge.Advisor.Service.{Provider, Config, Service, Host, new_service}
use trollbridge.Advisor.Classify.{ListContext, classify}
use trollbridge.Advisor.Vetted.{Grounded}
use trollbridge.Advisor.Verdict.{IsVetted, classify-Answers}

-- The services that a new one becomes by any number of calls.
pub data Calls (host : Host) (s : Service) : Service → Type 0 where
  here : Calls host s s
  next :
      {t : Service} (start now : ℕ) (req : RequestEvent) (version : Text)
      (headers : List (Text × Text)) (lists : ListContext)
      → Calls host s t
      → Calls host s (classify host start now req version headers lists t).2

pub Calls-IsVetted :
    (host : Host) (cfg : Config) (prov : Option Provider) (s : Service)
    → Calls host (new_service cfg prov) s
    → IsVetted s × (s.cfg ≡ (new_service cfg prov).cfg) × (s.prov ≡ prov)
unfolding new_service lookup
Calls-IsVetted host cfg prov s here = (λ k v e. cc, refl, refl)
Calls-IsVetted host cfg prov s (next {t} start now req version headers lists calls) =
    let (v, c, p) = Calls-IsVetted host cfg prov t calls in
    let (_, c', p', v') = classify-Answers host start now req version headers lists t v in
    (v', c' ∙ c, p' ∙ p)

-- Every verdict of an advisor, after any calls, has something behind it. It asks the user; or an
-- output that the provider gave to some question supports it, with the same effect, at a known
-- confidence at or above the floor, and with known modifiers only; or the advisor is off, absent or
-- failed, and the verdict is the one that on_unavailable names.
pub Calls-Grounded :
    (host : Host) (cfg : Config) (prov : Option Provider) (s : Service)
    → Calls host (new_service cfg prov) s
    → (start now : ℕ) (req : RequestEvent) (version : Text) (headers : List (Text × Text))
      (lists : ListContext)
    → Grounded
        (new_service cfg prov).cfg
        prov
        (classify host start now req version headers lists s).0
Calls-Grounded host cfg prov s calls start now req version headers lists =
    let (v, c, p) = Calls-IsVetted host cfg prov s calls in
    let (grounded, _, _, _) = classify-Answers host start now req version headers lists s v in
    subst
      (λ (x : Config × Option Provider).
        Grounded x.0 x.1 (classify host start now req version headers lists s).0)
      (pair_eq c p) grounded
  where
    pair_eq :
        {a b : Config} {x y : Option Provider}
        → a ≡ b
        → x ≡ y
        → ◌≡◌ {A = Config × Option Provider} (a, x) (b, y)
    pair_eq e f = cc
