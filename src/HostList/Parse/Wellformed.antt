-- ===== src/HostList/Parse/Wellformed.antt =====
-- What the parser guarantees of a pattern: on each axis the wildcard flag and the value fit.
use trollbridge.Prelude.{
  ◌≡◌, ap, ◌⊎◌, inl, inr, true, false, [], arith, nat_eq, list_eq, is_empty, ok, >>=-eq-ok, eq_iff,
  Option-cases,
}
use mathlib.Core.List.{tail}
use trollbridge.Prelude.Int.{pos, ◌≤ℤ◌}
use trollbridge.Text.{Text, codes, to_lower, contains, cut}
use trollbridge.HostList.Parse.{
  Pattern, is_uppercase_letters, raw_pattern, parse_method, parse_scheme, parse_host, parse_port,
  parse_path, parse_pattern,
}

abbrev pub MethodFits : Pattern → Type 0
MethodFits p =
    ((p.any_method ≡ true) × (p.method ≡ []))
    ⊎ ((p.any_method ≡ false) × (is_uppercase_letters p.method ≡ true))

abbrev pub SchemeFits : Pattern → Type 0
SchemeFits p =
    ((p.any_scheme ≡ true) × (p.scheme ≡ []))
    ⊎ ((p.any_scheme ≡ false) × ((p.scheme ≡ codes "http") ⊎ (p.scheme ≡ codes "https")))

-- One of the three shapes, and no `*` but the one that makes the shape.
abbrev pub HostFits : Pattern → Type 0
HostFits p =
    ((p.wildcard_all_hosts ≡ true) × (p.wildcard_prefix ≡ false))
    ⊎ ((p.wildcard_all_hosts ≡ false)
        × (p.wildcard_prefix ≡ true)
        × (contains (tail p.host_suffix) (codes "*") ≡ false))
    ⊎ ((p.wildcard_all_hosts ≡ false)
        × (p.wildcard_prefix ≡ false)
        × (is_empty p.exact_host ≡ false)
        × (contains p.exact_host (codes "*") ≡ false))

abbrev pub PortFits : Pattern → Type 0
PortFits p =
    (p.any_port ≡ true) ⊎ ((p.any_port ≡ false) × (pos 1 ≤ℤ p.port) × (p.port ≤ℤ pos 65535))

abbrev pub PathFits : Pattern → Type 0
PathFits p =
    ((p.any_path ≡ true) × (p.match_prefix ≡ false))
    ⊎ ((p.any_path ≡ false) × (p.match_prefix ≡ true))
    ⊎ ((p.any_path ≡ false)
        × (p.match_prefix ≡ false)
        × (is_empty p.exact_path ≡ false)
        × (contains p.exact_path (codes "*") ≡ false))

pub record IsWellformed (p : Pattern) : Type 0 where
  pub method_fits : MethodFits p
  pub scheme_fits : SchemeFits p
  pub host_fits : HostFits p
  pub port_fits : PortFits p
  pub path_fits : PathFits p

-- Each step sets the fields of its axis and no other.
method_step :
    (s t : Text)
    → let q = (parse_method (raw_pattern s) t).0 in
      MethodFits q × (q ≡ record (raw_pattern s) { any_method = q.any_method; method = q.method })
unfolding parse_method raw_pattern
method_step s t = ground arith

scheme_step :
    (p q : Pattern) (rest r : Text)
    → p.any_scheme ≡ false
    → p.scheme ≡ []
    → parse_scheme p rest ≡ ok (q, r)
    → SchemeFits q × (q ≡ record p { any_scheme = q.any_scheme; scheme = q.scheme })
unfolding parse_scheme
scheme_step p q rest r a b h = elim (Option-cases (cut rest (codes "://"))) [
  | inl e ↦ ground (arith, e)
  | inr ((before, after), e) ↦
      ground (
        arith,
        e,
        eq_iff (to_lower before) (codes "http"),
        eq_iff (to_lower before) (codes "https"),
      )
]

host_step :
    (p q : Pattern) (host : Text)
    → p.wildcard_all_hosts ≡ false
    → p.wildcard_prefix ≡ false
    → parse_host p host ≡ ok q
    → HostFits q
      × (q ≡ record p {
        wildcard_all_hosts = q.wildcard_all_hosts;
        wildcard_prefix = q.wildcard_prefix;
        host_suffix = q.host_suffix;
        exact_host = q.exact_host;
      })
unfolding parse_host
host_step p q host a b h = ground arith

port_step :
    (p q : Pattern) (part : Text)
    → p.any_port ≡ false
    → parse_port p part ≡ ok q
    → PortFits q × (q ≡ record p { any_port = q.any_port; port = q.port })
unfolding parse_port
port_step p q part a h = ground arith

path_step :
    (p q : Pattern) (part : Text)
    → p.any_path ≡ false
    → p.match_prefix ≡ false
    → parse_path p part ≡ ok q
    → PathFits q
      × (q ≡ record p {
        any_path = q.any_path;
        match_prefix = q.match_prefix;
        path_prefix = q.path_prefix;
        exact_path = q.exact_path;
      })
unfolding parse_path
path_step p q part a b h = ground arith

-- A parse that succeeds, step by step.
parse_pattern-steps :
    (s : Text) (p : Pattern)
    → parse_pattern s ≡ ok p
    → let m = parse_method (raw_pattern s) s in
      (a : Pattern) × (rest : Text) × (q r : Pattern) × (host port path : Text) × (parse_scheme m.0
          m.1
        ≡ ok (a, rest))
      × (parse_host a host ≡ ok q)
      × (parse_port q port ≡ ok r)
      × (parse_path r path ≡ ok p)
unfolding parse_pattern
parse_pattern-steps s p h =
    let m = parse_method (raw_pattern s) s in
    let ((a, rest), ea, ka) = >>=-eq-ok (parse_scheme m.0 m.1) _ h in
    let (q, eq, kq) = >>=-eq-ok (parse_host a _) _ ka in
    let (r, er, kr) = >>=-eq-ok (parse_port q _) _ kq in (a, rest, q, r, _, _, _, ea, eq, er, kr)

-- Every text that parses gives a pattern whose flags and values fit, and which keeps the text.
pub parse_pattern-IsWellformed :
    (s : Text) (p : Pattern) → parse_pattern s ≡ ok p → IsWellformed p × (p.raw ≡ s)
unfolding raw_pattern
parse_pattern-IsWellformed s p h =
    let (a, rest, q, r, host, port, path, ea, eq, er, ep) = parse_pattern-steps s p h in
    let m = (parse_method (raw_pattern s) s).0 in
    let (fm, km) = method_step s s in
    let (fs, ks) =
      scheme_step m a _ rest (ap (λ (x : Pattern). x.any_scheme) km)
        (ap (λ (x : Pattern). x.scheme) km) ea in
    let (fh, kh) = host_step a q host (ground (arith, km, ks)) (ground (arith, km, ks)) eq in
    let (fp, kp) = port_step q r port (ground (arith, km, ks, kh)) er in
    let (ft, kt) =
      path_step r p path (ground (arith, km, ks, kh, kp)) (ground (arith, km, ks, kh, kp)) ep in
    (
      record {
        method_fits = ground (arith, fm, ks, kh, kp, kt);
        scheme_fits = ground (arith, fs, kh, kp, kt);
        host_fits = ground (arith, fh, kp, kt);
        port_fits = ground (arith, fp, kt);
        path_fits = ft;
      },
      ground (arith, km, ks, kh, kp, kt),
    )
