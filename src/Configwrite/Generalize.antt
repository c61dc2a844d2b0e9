-- ===== src/Configwrite/Generalize.antt =====
-- internal/configwrite/configwrite.go, Generalize, with internal/hostlist/hostlist.go: what the list
-- matches before and after.
use mathlib.Core.Path.{subst}
use trollbridge.Prelude.{
  ℕ, ◌+◌, ◌≡◌, ◌⊎◌, refl, sym, ◌∙◌, ap, inl, inr, Bool, true, false, not, ◌||◌, List, [], ◌∷◌, ◌++◌,
  Option, none, some, is_some, arith, any, any-append, filter_by, All, is_empty, ◌==◌, nat_eq,
  list_eq, eq_iff, eq_refl, Bool-cases, Result, ok, err, ◌>>=◌, >>=-eq-ok, ok-injective,
  Option-cases,
}
use trollbridge.Prelude.Int.{ℤ}
use trollbridge.Prelude.Sort.{any-sort_stable}
use trollbridge.Text.{Text, lt_text, trim_space, to_lower, to_upper}
use trollbridge.HostList.Parse.{Pattern, ParseError, parse_pattern}
use trollbridge.HostList.Match.{
  HostList, entry_text, load_from, load_inline, fires, match, default_path,
}
use trollbridge.HostList.Subsumes.{subsumes}
use trollbridge.HostList.Subsumes.Sound.{fires-subsumes, is_some-match}
use trollbridge.Configwrite.Edit.{insert_sorted, is_replaced, generalized}

module _ (m s h : Text) (port : ℤ) (path : Text) where
  -- A line of the list is a pattern that fires.
  abbrev parsed_fires : Result ParseError Pattern → Bool
  parsed_fires (err e) = false
  parsed_fires (ok p) = fires m s h port path p

  abbrev line_fires : Option Text → Bool
  line_fires none = false
  line_fires (some line) = parsed_fires (parse_pattern line)

  abbrev pub entry_fires : Text → Bool
  entry_fires e = line_fires (entry_text e)

  any-load_from :
      (label : ℕ → Text) (i : ℕ) (es : List Text) (ps : List Pattern)
      → load_from label i es ≡ ok ps
      → any (fires m s h port path) ps ≡ any entry_fires es
  unfolding load_from fires
  any-load_from label i [] ps e = ground (arith, e)
  any-load_from label i (raw ∷ es) ps e = elim (Option-cases (entry_text raw)) [
    | inl n ↦ ground (arith, n, e, any-load_from label (i + 1) es ps)
    | inr (line, l) ↦
        let kept : (Pattern → List Pattern → List Pattern) =
          λ pat rest. record pat { source = label i } ∷ rest in
        let read : (parse_pattern line >>= λ pat.
        load_from label (i + 1) es >>= λ rest. ok (kept pat rest))
            ≡ ok ps =
          ground (arith, l, e) in
        let (pat, pe, e₁) = >>=-eq-ok (parse_pattern line) _ read in
        let (more, me, e₂) = >>=-eq-ok (load_from label (i + 1) es) _ e₁ in
        ground (arith, l, pe, e₂, any-load_from label (i + 1) es more me)
  ]

  any-filter_by :
      (dropped : Text → Bool) (es : List Text)
      → any entry_fires es ≡ true
      → ((e : Text) × (any (λ x. x == e) es ≡ true) × (dropped e ≡ true) × (entry_fires e ≡ true))
        ⊎ (any entry_fires (filter_by (λ e. not (dropped e)) es) ≡ true)
  any-filter_by dropped [] k = cc
  any-filter_by dropped (e ∷ es) k = elim (Bool-cases (entry_fires e)) [
    | inl f ↦ elim (Bool-cases (dropped e)) [
      | inl d ↦ inl (e, ground (arith, eq_refl e), d, f)
      | inr d ↦ inr (ground (arith, d, f))
    ]
    | inr f ↦ elim (any-filter_by dropped es (ground (arith, k, f))) [
      | inl (x, m, d, g) ↦ inl (x, ground (arith, m), d, g)
      | inr g ↦ inr (ground (arith, g))
    ]
  ]

  any_member :
      (f : Text → Bool) (x : Text) (es : List Text)
      → any (λ e. e == x) es ≡ true
      → f x ≡ true
      → any f es ≡ true
  any_member f x [] k g = cc
  any_member f x (e ∷ es) k g = elim (Bool-cases (e == x)) [
    | inl same ↦ ground (arith, ap f ((eq_iff e x).0 same), g)
    | inr other ↦ ground (arith, any_member f x es (ground (arith, k, other)) g)
  ]

  any-insert_sorted :
      (f : Text → Bool) (pattern : Text) (es : List Text)
      → is_empty (trim_space pattern) ≡ false
      → (any f es || f (trim_space pattern)) ≡ true
      → any f (insert_sorted pattern es) ≡ true
  unfolding insert_sorted
  any-insert_sorted f pattern es some_text k = ground (
    arith,
    some_text,
    k,
    any_member f (trim_space pattern) es,
    any-sort_stable lt_text f (es ++ trim_space pattern ∷ []),
    any-append f es (trim_space pattern ∷ []),
  )

  -- What the pattern subsumes it matches.
  subsumed-fires :
      (pattern e : Text)
      → subsumes pattern e ≡ true
      → entry_text pattern ≡ some pattern
      → entry_text e ≡ some e
      → entry_fires e ≡ true
      → entry_fires pattern ≡ true
  unfolding subsumes
  subsumed-fires pattern e sub tp te f = go (parse_pattern pattern) (parse_pattern e) refl refl
    where
      go :
          (o r : Result ParseError Pattern)
          → parse_pattern pattern ≡ o
          → parse_pattern e ≡ r
          → entry_fires pattern ≡ true
      go (err x) r po re = ground (arith, po, sub)
      go (ok p) (err x) po re = ground (arith, po, re, sub)
      go (ok p) (ok q) po re =
          rw (tp, po)
            (fires-subsumes p q m s h port path (ground (arith, po, re, sub))
              (ground (arith, te, re, f)))

All_member {κ} :
    (P : Text → Type κ) (x : Text) (es : List Text) → All P es → any (λ e. e == x) es ≡ true → P x
All_member P x [] hs k = absurd (ground (arith, k))
All_member P x (e ∷ es) (h, hs) k = elim (Bool-cases (e == x)) [
  | inl same ↦ subst P ((eq_iff e x).0 same) h
  | inr other ↦ All_member P x es hs (ground (arith, k, other))
]

-- A generalization never narrows a list. Take entries without comments or outer white space, a
-- pattern of the same kind that subsumes every entry named as a source, and the lists that LoadInline
-- makes of the entries before and after: a request that the old list matches the new one matches too.
pub generalized-match :
    (pattern : Text) (sources es : List Text) (name : Text) (label label' : ℕ → Text)
    (l l' : HostList)
    → All (λ e. entry_text e ≡ some e) es
    → All (λ e. is_replaced pattern sources e ≡ subsumes pattern e) es
    → trim_space pattern ≡ pattern
    → entry_text pattern ≡ some pattern
    → load_inline name label es ≡ ok l
    → load_inline name label' (generalized pattern sources es) ≡ ok l'
    → (m s h : Text) (port : ℤ) (path : Text) → is_some (match (some l) m s h port path) ≡ true
    → is_some (match (some l') m s h port path) ≡ true
unfolding load_inline generalized
generalized-match pattern sources es name label label' l l' plain covered trimmed tp old new m s h
      port path k =
    let (ps, pe, le) = >>=-eq-ok (load_from label 0 es) _ old in
    let (ps', pe', le') = >>=-eq-ok (load_from label' 0 (generalized pattern sources es)) _ new in
    let m' = to_upper (trim_space m) in
    let s' = to_lower (trim_space s) in
    let h' = to_lower (trim_space h) in
    let path' = default_path path in
    let kept = filter_by (λ e. not (is_replaced pattern sources e)) es in
    let f = entry_fires m' s' h' port path' in
    let hit : any f es ≡ true =
      sym (any-load_from m' s' h' port path' label 0 es ps pe)
      ∙ ap (λ x. any (fires m' s' h' port path') x.patterns) (ok-injective le)
      ∙ sym (is_some-match l m s h port path)
      ∙ k in
    let stays : (any f kept || f (trim_space pattern)) ≡ true =
      elim (any-filter_by m' s' h' port path' (is_replaced pattern sources) es hit) [
        | inr there ↦ ground (arith, there)
        | inl (e, there, dropped, fired) ↦
            let sub = sym (All_member _ e es covered there) ∙ dropped in
            ground (
              arith,
              ap f trimmed,
              subsumed-fires m' s' h' port path' pattern e sub tp (All_member _ e es plain there)
                  fired,
            )
      ] in
    is_some-match l' m s h port path
    ∙ ap (λ x. any (fires m' s' h' port path') x.patterns) (sym (ok-injective le'))
    ∙ any-load_from m' s' h' port path' label' 0 (generalized pattern sources es) ps' pe'
    ∙ any-insert_sorted m' s' h' port path' f pattern kept (entry_text-trimmed pattern tp) stays
  where
    entry_text-trimmed : (e : Text) → entry_text e ≡ some e → is_empty (trim_space e) ≡ false
    entry_text-trimmed e t = unfold entry_text in ground (arith, t)
