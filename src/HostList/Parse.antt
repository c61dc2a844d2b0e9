-- ===== src/HostList/Parse.antt =====
-- internal/hostlist/hostlist.go: the type Pattern and its parser.
pub mod Wellformed
use trollbridge.Prelude.{
  ℕ, Bool, true, false, not, ◌&&◌, ◌||◌, List, [], ◌∷◌, ◌++◌, Option, none, some, leb, ltb, ◌==◌,
  nat_eq, list_eq, if◌then◌else◌, is_empty, all, Result, ok, err, ◌>>=◌, ◌>>◌, guard,
}
use mathlib.Core.List.{tail}
use trollbridge.Prelude.Int.{ℤ, pos, ltb_ℤ}
use trollbridge.Text.{
  Text, codes, is_upper, to_lower, trim_space, has_prefix, has_suffix, trim_suffix, contains, cut,
  cut_byte, cut_last_byte, atoi,
}

pub record Pattern : Type 0 where
  pub source : Text
  pub raw : Text
  pub any_method : Bool
  pub method : Text
  pub any_scheme : Bool
  pub scheme : Text
  pub wildcard_all_hosts : Bool
  pub wildcard_prefix : Bool
  pub host_suffix : Text
  pub exact_host : Text
  pub any_port : Bool
  pub port : ℤ
  pub any_path : Bool
  pub path_prefix : Text
  pub exact_path : Text
  pub match_prefix : Bool

-- The errors that the parser returns.
pub data ParseError : Type 0 where
  bad_scheme : Text → ParseError
  empty_host : ParseError
  bad_host_wildcard : ParseError
  invalid_port : Text → ParseError
  bad_path_wildcard : ParseError

-- `Pattern{Raw: s}`: zero values elsewhere.
unfoldable pub raw_pattern : Text → Pattern
raw_pattern s = record {
  source = [];
  raw = s;
  any_method = false;
  method = [];
  any_scheme = false;
  scheme = [];
  wildcard_all_hosts = false;
  wildcard_prefix = false;
  host_suffix = [];
  exact_host = [];
  any_port = false;
  port = pos 0;
  any_path = false;
  path_prefix = [];
  exact_path = [];
  match_prefix = false;
}

unfoldable pub is_uppercase_letters : Text → Bool
unfolding is_upper
is_uppercase_letters s = not (is_empty s) && all is_upper s

-- A leading token that is `*` or a verb is the method; any other belongs to the host.
unfoldable pub parse_method : Pattern → Text → Pattern × Text
unfolding is_uppercase_letters
parse_method p rest = elim (cut_byte b' ' rest) [
  | none ↦ (record p { any_method = true }, rest)
  | some (head, after) ↦
      if is_empty head
      then (record p { any_method = true }, rest)
      else if head == codes "*"
      then (record p { any_method = true }, trim_space after)
      else if is_uppercase_letters head
      then (record p { method = head }, trim_space after)
      else (record p { any_method = true }, rest)
]

unfoldable pub parse_scheme : Pattern → Text → Result ParseError (Pattern × Text)
parse_scheme p rest = elim (cut rest (codes "://")) [
  | none ↦ ok (record p { any_scheme = true }, rest)
  | some (before, after) ↦
      let scheme = to_lower before in
      if scheme == codes "http" || scheme == codes "https"
      then ok (record p { scheme = scheme }, after)
      else err (bad_scheme scheme)
]

-- The text up to the first slash, and the text from that slash on.
unfoldable pub split_path : Text → Text × Text
split_path rest = elim (cut_byte b'/' rest) [
  | none ↦ (rest, [])
  | some (before, after) ↦ (before, b'/' ∷ after)
]

unfoldable pub split_port : Text → Text × Text
split_port hostport = elim (cut_last_byte b':' hostport) [
  | none ↦ (hostport, [])
  | some (before, after) ↦ (before, after)
]

unfoldable pub parse_host : Pattern → Text → Result ParseError Pattern
parse_host p host =
    if is_empty host
    then err empty_host
    else if host == codes "*"
    then ok (record p { wildcard_all_hosts = true })
    else if has_prefix host (codes "*.")
    then if contains (tail (tail host)) (codes "*")
      then err bad_host_wildcard
      else ok (record p { wildcard_prefix = true; host_suffix = tail host })
    else if contains host (codes "*")
    then err bad_host_wildcard
    else ok (record p { exact_host = host })

unfoldable pub parse_port : Pattern → Text → Result ParseError Pattern
parse_port p port_part =
    if is_empty port_part || port_part == codes "*"
    then ok (record p { any_port = true })
    else elim (atoi port_part) [
      | none ↦ err (invalid_port port_part)
      | some port ↦
          if ltb_ℤ port (pos 1) || ltb_ℤ (pos 65535) port
          then err (invalid_port port_part)
          else ok (record p { port = port })
    ]

unfoldable pub parse_path : Pattern → Text → Result ParseError Pattern
parse_path p path_part =
    if is_empty path_part || path_part == codes "/*"
    then ok (record p { any_path = true })
    else if has_suffix path_part (codes "/*")
    then ok (record p {
      match_prefix = true;
      path_prefix = trim_suffix path_part (codes "/*") ++ codes "/";
    })
    else if contains path_part (codes "*")
    then err bad_path_wildcard
    else ok (record p { exact_path = path_part })

-- [<METHOD>|*] [<scheme>://]<host>[:<port>][<path>]
unfoldable pub parse_pattern : Text → Result ParseError Pattern
parse_pattern s = do
  let m = parse_method (raw_pattern s) s
  (p, rest) ← parse_scheme m.0 m.1
  let parts = split_path rest
  let hp = split_port parts.0
  q ← parse_host p (to_lower (trim_space hp.0))
  r ← parse_port q hp.1
  parse_path r parts.1
