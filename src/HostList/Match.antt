-- ===== src/HostList/Match.antt =====
-- internal/hostlist/hostlist.go: the type HostList, its loader and the matcher.
pub mod First
pub mod Normal
use trollbridge.Prelude.{
  ℕ, suc, ◌+◌, Bool, true, not, ◌&&◌, ◌||◌, List, [], ◌∷◌, ◌++◌, Option, none, some, ltb, ◌==◌,
  nat_eq, list_eq, if◌then◌else◌, is_empty, length, find, Result, ok, err, ◌>>=◌,
}
use trollbridge.Prelude.Int.{ℤ, int_eq}
use trollbridge.Text.{Text, codes, to_lower, to_upper, trim_space, has_prefix, has_suffix, cut}
use trollbridge.HostList.Parse.{Pattern, ParseError, parse_pattern}

pub record HostList : Type 0 where
  pub name : Text
  pub patterns : List Pattern

-- A line with its inline comment cut off; `none` for blank lines and comments.
unfoldable pub entry_text : Text → Option Text
entry_text raw =
    let line = trim_space raw in
    if is_empty line || has_prefix line (codes "#") then none else elim (cut line (codes " #")) [
      | none ↦ some line
      | some (before, _) ↦ some (trim_space before)
    ]

-- The loop of LoadInline. `label i` is the text `<sourceLabel>[i]`, which Go's formatter makes.
unfoldable pub load_from : (ℕ → Text) → ℕ → List Text → Result ParseError (List Pattern)
load_from label i [] = ok []
load_from label i (raw ∷ entries) = elim (entry_text raw) [
  | none ↦ load_from label (i + 1) entries
  | some line ↦ do
    pat ← parse_pattern line
    rest ← load_from label (i + 1) entries
    ok (record pat { source = label i } ∷ rest)
]

unfoldable pub load_inline : Text → (ℕ → Text) → List Text → Result ParseError HostList
load_inline name label entries = do
  patterns ← load_from label 0 entries
  ok (record { name = name; patterns = patterns })

unfoldable pub match_method_pattern : Pattern → Text → Bool
match_method_pattern p method = if p.any_method then true else method == p.method

unfoldable pub match_scheme_pattern : Pattern → Text → Bool
match_scheme_pattern p scheme = if p.any_scheme then true else scheme == p.scheme

unfoldable pub match_host_pattern : Pattern → Text → Bool
match_host_pattern p host =
    if p.wildcard_all_hosts
    then true
    else if p.wildcard_prefix
    then has_suffix host p.host_suffix && ltb (length p.host_suffix) (length host)
    else host == p.exact_host

unfoldable pub match_path_pattern : Pattern → Text → Bool
match_path_pattern p path =
    if p.any_path
    then true
    else if p.match_prefix
    then has_prefix path p.path_prefix
    else path == p.exact_path

-- The tests of one round of the loop in Match, on a request that is already normalised.
unfoldable pub fires : Text → Text → Text → ℤ → Text → Pattern → Bool
unfolding match_method_pattern match_scheme_pattern match_host_pattern match_path_pattern
fires method scheme host port path p =
    match_method_pattern p method
    && match_scheme_pattern p scheme
    && match_host_pattern p host
    && (p.any_port || p.port == port)
    && match_path_pattern p path

unfoldable pub default_path : Text → Text
default_path path = if is_empty path then codes "/" else path

-- A nil list matches nothing.
unfoldable pub match : Option HostList → Text → Text → Text → ℤ → Text → Option Pattern
unfolding fires default_path
match none method scheme host port path = none
match (some h) method scheme host port path =
    find
      (fires (to_upper (trim_space method)) (to_lower (trim_space scheme))
        (to_lower (trim_space host)) port (default_path path))
      h.patterns
