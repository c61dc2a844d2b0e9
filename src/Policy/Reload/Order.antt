-- ===== src/Policy/Reload/Order.antt =====
-- The order of the active rules.
use mathlib.Core.List.{Perm}
use trollbridge.Prelude.{◌≡◌, true, false, List, [], ◌∷◌, arith, ◌==◌, ok, filter_by, ℕ, All}
use trollbridge.Prelude.Int.{ℤ, int_eq, ltb_ℤ, ◌≤ℤ◌}
use trollbridge.Prelude.Sort.{
  IsWeakOrder, IsSorted, sort_stable, sort_stable-IsSorted, sort_stable-perm, filter_by-sort_stable,
}
use trollbridge.Policy.Rule.{Rule}
use trollbridge.Policy.Reload.{Engine, Loader, load_files, before, reload}

ltb_ℤ-asym : (a b : ℤ) → ltb_ℤ a b ≡ true → ltb_ℤ b a ≡ false
ltb_ℤ-asym a b h = ground arith

ltb_ℤ-trans : (a b c : ℤ) → ltb_ℤ a b ≡ false → ltb_ℤ b c ≡ false → ltb_ℤ a c ≡ false
ltb_ℤ-trans a b c h k = ground arith

pub before-IsWeakOrder : IsWeakOrder before
unfolding before
before-IsWeakOrder = record {
  asym = λ a b h. ltb_ℤ-asym b.priority a.priority h;
  neg_trans = λ a b c h k. ltb_ℤ-trans a.priority b.priority c.priority h k;
}

ltb_ℤ-self : (k a b : ℤ) → (a == k) ≡ true → (b == k) ≡ true → ltb_ℤ b a ≡ false
ltb_ℤ-self k a b h h' = ground arith

-- The highest priority first: no rule stands after one of a lower priority.
abbrev pub IsDescending : List Rule → Type 0
IsDescending [] = Unit
IsDescending (r ∷ rules) = All (λ s. s.priority ≤ℤ r.priority) rules × IsDescending rules

none_above :
    (r : Rule) (rules : List Rule)
    → All (λ s. before s r ≡ false) rules
    → All (λ s. s.priority ≤ℤ r.priority) rules
unfolding before
none_above r [] h = tt
none_above r (s ∷ rules) (h, hs) = (ground (arith, h), none_above r rules hs)

sorted-IsDescending : (rules : List Rule) → IsSorted before rules → IsDescending rules
sorted-IsDescending [] s = tt
sorted-IsDescending (r ∷ rules) (h, s) = (none_above r rules h, sorted-IsDescending rules s)

-- A reload that succeeds makes the rules of the files active: the same rules, each as often, none
-- after one of a lower priority, and those of one priority in the order in which the files have them.
pub reload-IsSorted :
    (l : Loader) (e : Engine) (rules : List Rule) (bytes : List ℕ)
    → load_files l e.known_modifiers e.patterns e.include ≡ ok (rules, bytes)
    → let active = (reload l e).0.rules in
      Perm active rules
      × IsDescending active
      × ((k : ℤ)
          → filter_by (λ (r : Rule). r.priority == k) active
            ≡ filter_by (λ (r : Rule). r.priority == k) rules)
unfolding reload
reload-IsSorted l e rules bytes h =
    rw (h, reload)
      (
        sort_stable-perm before rules,
        sorted-IsDescending (sort_stable before rules)
            (sort_stable-IsSorted before before-IsWeakOrder rules),
        λ k.
            filter_by-sort_stable before (λ r. r.priority == k)
              (unfold before in λ a b p q. ltb_ℤ-self k a.priority b.priority p q) rules,
      )
