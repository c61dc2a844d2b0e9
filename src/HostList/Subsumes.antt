-- ===== src/HostList/Subsumes.antt =====
-- internal/hostlist/hostlist.go: the subsumption test between patterns.
pub mod Sound
use trollbridge.Prelude.{
  Bool, true, false, not, ◌&&◌, ◌||◌, ltb, ◌==◌, nat_eq, list_eq, if◌then◌else◌, length, ok, err,
}
use trollbridge.Prelude.Int.{int_eq}
use trollbridge.Text.{Text, has_prefix, has_suffix}
use trollbridge.HostList.Parse.{Pattern, parse_pattern}

unfoldable pub host_subsumes : Pattern → Pattern → Bool
host_subsumes p e =
    if p.wildcard_all_hosts
    then true
    else if p.wildcard_prefix
    then if e.wildcard_all_hosts
      then false
      else if e.wildcard_prefix
      then has_suffix e.host_suffix p.host_suffix
      else has_suffix e.exact_host p.host_suffix && ltb (length p.host_suffix) (length e.exact_host)
    else not e.wildcard_all_hosts && not e.wildcard_prefix && e.exact_host == p.exact_host

unfoldable pub path_subsumes : Pattern → Pattern → Bool
path_subsumes p e =
    if p.any_path
    then true
    else if p.match_prefix
    then if e.any_path
      then false
      else if e.match_prefix
      then has_prefix e.path_prefix p.path_prefix
      else has_prefix e.exact_path p.path_prefix
    else not e.any_path && not e.match_prefix && e.exact_path == p.exact_path

-- On each axis: `p` covers all, or `e` names exactly the value that `p` names.
unfoldable pub axis_subsumes : Bool → Bool → Bool → Bool
axis_subsumes p_any e_any equal = p_any || (not e_any && equal)

unfoldable pub pattern_subsumes : Pattern → Pattern → Bool
unfolding host_subsumes path_subsumes axis_subsumes
pattern_subsumes p e =
    axis_subsumes p.any_method e.any_method (e.method == p.method)
    && axis_subsumes p.any_scheme e.any_scheme (e.scheme == p.scheme)
    && host_subsumes p e
    && axis_subsumes p.any_port e.any_port (e.port == p.port)
    && path_subsumes p e

-- False where either text does not parse.
unfoldable pub subsumes : Text → Text → Bool
subsumes pattern entry = elim (parse_pattern pattern) [
  | err _ ↦ false
  | ok p ↦ elim (parse_pattern entry) [ err _ ↦ false | ok e ↦ pattern_subsumes p e ]
]
