-- ===== src/HostList/Match/First.antt =====
-- The matcher returns the first pattern of the list that covers the request, `Covers` being the
-- documented meaning of a pattern with no test in it.
use trollbridge.Prelude.{
  ◌≡◌, refl, ap, ◌<◌, ◌↔◌, ◌⊎◌, inl, inr, ◌≢◌, Bool, true, false, ◌&&◌, List, [], ◌∷◌, ◌++◌, none,
  some, arith, ltb, ◌==◌, nat_eq, list_eq, if◌then◌else◌, length, find, any, All, eq_iff, eq→≡,
  find-split, length-append, Option-cases, is_some-find,
}
use trollbridge.Prelude.Int.{ℤ, int_eq}
use trollbridge.Text.{Text, has_prefix, has_suffix, to_lower, to_upper, trim_space}
use trollbridge.Text.Affix.{has_prefix-split, split-has_prefix, has_suffix-split, split-has_suffix}
use trollbridge.HostList.Parse.{Pattern}
use trollbridge.HostList.Match.{
  HostList, match, fires, default_path, match_method_pattern, match_scheme_pattern,
  match_host_pattern, match_path_pattern,
}

-- All hosts, a proper subdomain of the suffix, or the one host.
abbrev pub HostCovers : Pattern → Text → Type 0
HostCovers p host =
    (p.wildcard_all_hosts ≡ true)
    ⊎ ((p.wildcard_prefix ≡ true)
        × ((labels : Text) × (labels ≢ []) × (host ≡ labels ++ p.host_suffix)))
    ⊎ ((p.wildcard_prefix ≡ false) × (host ≡ p.exact_host))

-- All paths, those under the prefix, or the one path.
abbrev pub PathCovers : Pattern → Text → Type 0
PathCovers p path =
    (p.any_path ≡ true)
    ⊎ ((p.match_prefix ≡ true) × ((below : Text) × (path ≡ p.path_prefix ++ below)))
    ⊎ ((p.match_prefix ≡ false) × (path ≡ p.exact_path))

pub record Covers (method scheme host : Text) (port : ℤ) (path : Text) (p : Pattern) : Type 0 where
  pub on_method : (p.any_method ≡ true) ⊎ (method ≡ p.method)
  pub on_scheme : (p.any_scheme ≡ true) ⊎ (scheme ≡ p.scheme)
  pub on_host : HostCovers p host
  pub on_port : (p.any_port ≡ true) ⊎ (p.port ≡ port)
  pub on_path : PathCovers p path

axis_iff : (b : Bool) (x y : Text) → ((if b then true else x == y) ≡ true) ↔ ((b ≡ true) ⊎ (x ≡ y))
axis_iff true x y = (λ _. inl refl, λ _. refl)
axis_iff false x y = (λ h. inr (eq→≡ x y h), ground (arith, eq_iff x y))

proper : (labels suffix : Text) → labels ≢ [] → length suffix < length (labels ++ suffix)
proper [] suffix h = absurd (h refl)
proper (c ∷ labels) suffix h = omega (arith, length-append labels suffix)

not_longer : (labels suffix : Text) → length suffix < length (labels ++ suffix) → labels ≢ []
not_longer [] suffix h = λ _. omega arith
not_longer (c ∷ labels) suffix h = λ e. cc

subdomain_iff :
    (suffix host : Text)
    → ((has_suffix host suffix && ltb (length suffix) (length host)) ≡ true)
      ↔ ((labels : Text) × (labels ≢ []) × (host ≡ labels ++ suffix))
subdomain_iff suffix host = (forth, back)
  where
    forth :
        (has_suffix host suffix && ltb (length suffix) (length host)) ≡ true
        → (labels : Text) × (labels ≢ []) × (host ≡ labels ++ suffix)
    forth t =
        let (labels, e) = has_suffix-split host suffix (ground arith) in
        (labels, not_longer labels suffix (ground (arith, ap length e)), e)

    back :
        ((labels : Text) × (labels ≢ []) × (host ≡ labels ++ suffix))
        → (has_suffix host suffix && ltb (length suffix) (length host)) ≡ true
    back (labels, ne, e) =
        rw e (ground (arith, split-has_suffix labels suffix, proper labels suffix ne))

host_iff : (p : Pattern) (host : Text) → (match_host_pattern p host ≡ true) ↔ HostCovers p host
unfolding match_host_pattern
host_iff p host = ground (arith, subdomain_iff p.host_suffix host, eq_iff host p.exact_host)

under_iff :
    (prefix path : Text)
    → (has_prefix path prefix ≡ true) ↔ ((below : Text) × (path ≡ prefix ++ below))
under_iff prefix path = (has_prefix-split path prefix, λ t. split-has_prefix path prefix t.0 t.1)

path_iff : (p : Pattern) (path : Text) → (match_path_pattern p path ≡ true) ↔ PathCovers p path
unfolding match_path_pattern
path_iff p path = ground (arith, under_iff p.path_prefix path, eq_iff path p.exact_path)

-- The tests of one round decide `Covers`.
pub fires_iff :
    (m s h : Text) (port : ℤ) (path : Text) (p : Pattern)
    → (fires m s h port path p ≡ true) ↔ Covers m s h port path p
unfolding fires match_method_pattern match_scheme_pattern
fires_iff m s h port path p = (
  λ t. record {
    on_method = (axis_iff p.any_method m p.method).0 (ground arith);
    on_scheme = (axis_iff p.any_scheme s p.scheme).0 (ground arith);
    on_host = (host_iff p h).0 (ground arith);
    on_port = ground (arith, eq_iff p.port port);
    on_path = (path_iff p path).0 (ground arith);
  },
  λ c. ground (
    arith,
    (axis_iff p.any_method m p.method).1 c.on_method,
    (axis_iff p.any_scheme s p.scheme).1 c.on_scheme,
    (host_iff p h).1 c.on_host,
    c.on_port,
    eq_iff p.port port,
    (path_iff p path).1 c.on_path,
  ),
)

module _ {ℓ κ} {A : Type ℓ} (f : A → Bool) (P : A → Type κ)
    (iff : (a : A) → (f a ≡ true) ↔ P a) where
  none_of : (xs : List A) → any f xs ≡ false → All (λ a. ¬ P a) xs
  none_of [] h = tt
  none_of (x ∷ xs) h = (λ c. ground (arith, (iff x).1 c), none_of xs (ground arith))

-- A pattern that the matcher returns covers the request, and no pattern before it in the list does;
-- where it returns none, no pattern of the list does. The request is taken in its normal form.
pub match-Covers :
    (l : HostList) (m s h : Text) (port : ℤ) (path : Text)
    → let Hit =
        Covers
          (to_upper (trim_space m))
          (to_lower (trim_space s))
          (to_lower (trim_space h))
          port
          (default_path path) in
      ((match (some l) m s h port path ≡ none) × All (λ q. ¬ Hit q) l.patterns)
      ⊎ ((q : Pattern) × (us vs : List Pattern) × (match (some l) m s h port path ≡ some q)
          × (l.patterns ≡ us ++ q ∷ vs)
          × All (λ r. ¬ Hit r) us
          × Hit q)
unfolding match
match-Covers l m s h port path = elim (Option-cases (find test l.patterns)) [
  | inl e ↦ inl (e, none_of test _ iff l.patterns (ground (arith, is_some-find test l.patterns, e)))
  | inr (q, e) ↦
      let (us, vs, split, before, hit) = find-split test l.patterns e in
      inr (q, us, vs, e, split, none_of test _ iff us before, (iff q).0 hit)
]
  where
    test : Pattern → Bool
    test =
        fires (to_upper (trim_space m)) (to_lower (trim_space s)) (to_lower (trim_space h)) port
          (default_path path)

    iff :
        (p : Pattern)
        → (test p ≡ true)
          ↔ Covers
              (to_upper (trim_space m))
              (to_lower (trim_space s))
              (to_lower (trim_space h))
              port
              (default_path path)
              p
    iff = fires_iff _ _ _ port _
