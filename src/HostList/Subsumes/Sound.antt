-- ===== src/HostList/Subsumes/Sound.antt =====
-- The subsumption test is sound: whatever the narrower entry matches, the wider one matches, so an
-- entry that another one subsumes can be taken off a list.
use trollbridge.Prelude.{
  ◌≡◌, sym, ap, Bool, true, ◌||◌, List, ◌∷◌, ◌++◌, Option, some, arith, ◌==◌, nat_eq, list_eq,
  is_some, length, any, ok, is_some-find, any-append, eq→≡, eq_refl,
}
use trollbridge.Prelude.Int.{ℤ, int_eq}
use trollbridge.Text.{Text, has_prefix, has_suffix, to_lower, to_upper, trim_space}
use trollbridge.Text.Affix.{has_prefix_trans, has_suffix_trans, has_suffix-length}
use trollbridge.HostList.Parse.{Pattern, parse_pattern}
use trollbridge.HostList.Match.{
  HostList, match, fires, default_path, match_method_pattern, match_scheme_pattern,
  match_host_pattern, match_path_pattern,
}
use trollbridge.HostList.Subsumes.{
  subsumes, pattern_subsumes, host_subsumes, path_subsumes, axis_subsumes,
}

eq_trans : (a b c : Text) → (a == b) ≡ true → (b == c) ≡ true → (a == c) ≡ true
eq_trans a b c h k = rw (eq→≡ a b h, eq→≡ b c k) (eq_refl c)

port_trans : (a b c : ℤ) → (b == a) ≡ true → (b == c) ≡ true → (c == a) ≡ true
port_trans a b c h k = rw (sym (eq→≡ b a h), sym (eq→≡ b c k)) (eq_refl b)

suffix_of_eq : (a b c : Text) → (a == b) ≡ true → has_suffix b c ≡ has_suffix a c
suffix_of_eq a b c h = rw (eq→≡ a b h)

prefix_of_eq : (a b c : Text) → (a == b) ≡ true → has_prefix b c ≡ has_prefix a c
prefix_of_eq a b c h = rw (eq→≡ a b h)

length_of_eq : (a b : Text) → (a == b) ≡ true → length a ≡ length b
length_of_eq a b h = ap length (eq→≡ a b h)

method_sound :
    (p e : Pattern) (m : Text)
    → axis_subsumes p.any_method e.any_method (e.method == p.method) ≡ true
    → match_method_pattern e m ≡ true
    → match_method_pattern p m ≡ true
unfolding axis_subsumes match_method_pattern
method_sound p e m h k = ground (arith, eq_trans m e.method p.method)

scheme_sound :
    (p e : Pattern) (s : Text)
    → axis_subsumes p.any_scheme e.any_scheme (e.scheme == p.scheme) ≡ true
    → match_scheme_pattern e s ≡ true
    → match_scheme_pattern p s ≡ true
unfolding axis_subsumes match_scheme_pattern
scheme_sound p e s h k = ground (arith, eq_trans s e.scheme p.scheme)

port_sound :
    (p e : Pattern) (port : ℤ)
    → axis_subsumes p.any_port e.any_port (e.port == p.port) ≡ true
    → (e.any_port || e.port == port) ≡ true
    → (p.any_port || p.port == port) ≡ true
unfolding axis_subsumes
port_sound p e port h k = ground (arith, port_trans port e.port p.port)

host_sound :
    (p e : Pattern) (host : Text)
    → host_subsumes p e ≡ true
    → match_host_pattern e host ≡ true
    → match_host_pattern p host ≡ true
unfolding host_subsumes match_host_pattern
host_sound p e host h k = ground (
  arith,
  has_suffix_trans host e.host_suffix p.host_suffix,
  has_suffix-length e.host_suffix p.host_suffix,
  suffix_of_eq host e.exact_host p.host_suffix,
  length_of_eq host e.exact_host,
  eq_trans host e.exact_host p.exact_host,
)

path_sound :
    (p e : Pattern) (path : Text)
    → path_subsumes p e ≡ true
    → match_path_pattern e path ≡ true
    → match_path_pattern p path ≡ true
unfolding path_subsumes match_path_pattern
path_sound p e path h k = ground (
  arith,
  has_prefix_trans path e.path_prefix p.path_prefix,
  prefix_of_eq path e.exact_path p.path_prefix,
  eq_trans path e.exact_path p.exact_path,
)

pub fires-subsumes :
    (p e : Pattern) (m s h : Text) (port : ℤ) (path : Text)
    → pattern_subsumes p e ≡ true
    → fires m s h port path e ≡ true
    → fires m s h port path p ≡ true
unfolding pattern_subsumes fires
fires-subsumes p e m s h port path sub k = ground (
  arith,
  method_sound p e m,
  scheme_sound p e s,
  host_sound p e h,
  port_sound p e port,
  path_sound p e path,
)

-- A matching request is one for which some pattern of the list fires.
pub is_some-match :
    (l : HostList) (m s h : Text) (port : ℤ) (path : Text)
    → is_some (match (some l) m s h port path)
      ≡ any
          (fires
            (to_upper (trim_space m))
            (to_lower (trim_space s))
            (to_lower (trim_space h))
            port
            (default_path path))
          l.patterns
unfolding match
is_some-match l m s h port path = is_some-find _ l.patterns

abbrev of_patterns : Text → List Pattern → Option HostList
of_patterns name ps = some (record { name = name; patterns = ps })

any-redundant {ℓ} :
    {A : Type ℓ} (f : A → Bool) (p e : A) (us vs xs ys : List A)
    → us ++ p ∷ vs ≡ xs ++ ys
    → (f e ≡ true → f p ≡ true)
    → any f (xs ++ e ∷ ys) ≡ any f (xs ++ ys)
any-redundant f p e us vs xs ys q covers = ground (
  arith,
  ap (any f) q,
  covers,
  any-append f us (p ∷ vs),
  any-append f xs (e ∷ ys),
  any-append f xs ys,
)

-- A pattern on a list makes an entry redundant there: where the test says so of two texts that parse to
-- p and e, a list of patterns that holds p matches the same requests with e, wherever it stands, as
-- without it.
pub subsumes-prune :
    (pattern entry : Text) (p e : Pattern)
    → parse_pattern pattern ≡ ok p
    → parse_pattern entry ≡ ok e
    → subsumes pattern entry ≡ true
    → (name : Text) (us vs xs ys : List Pattern) → us ++ p ∷ vs ≡ xs ++ ys
    → (m s h : Text) (port : ℤ) (path : Text)
    → is_some (match (of_patterns name (xs ++ e ∷ ys)) m s h port path)
      ≡ is_some (match (of_patterns name (xs ++ ys)) m s h port path)
unfolding subsumes
subsumes-prune pattern entry p e hp he t name us vs xs ys q m s h port path =
    let sub : pattern_subsumes p e ≡ true = ground (arith, hp, he, t) in
    rw
      (
        is_some-match (record { name = name; patterns = xs ++ e ∷ ys }) m s h port path,
        is_some-match (record { name = name; patterns = xs ++ ys }) m s h port path,
      )
      (any-redundant _ p e us vs xs ys q (fires-subsumes p e _ _ _ port _ sub))
