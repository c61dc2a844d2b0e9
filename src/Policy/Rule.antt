-- ===== src/Policy/Rule.antt =====
-- internal/policy/rule.go: rules, their match clauses, and when all clauses of a rule fire.
use trollbridge.Prelude.{
  ◌≡◌, arith, ℕ, Bool, true, false, not, ◌&&◌, ◌||◌, List, [], ◌∷◌, Option, none, some, ltb, leb,
  ◌==◌, nat_eq, list_eq, if◌then◌else◌, is_empty, length, any, all,
}
use mathlib.Core.List.{tail}
use trollbridge.Prelude.Int.{ℤ, int_eq}
use trollbridge.Prelude.Maps.{lookup}
use trollbridge.Text.{
  Text, codes, upper, lower, to_lower, trim_space, has_prefix, has_suffix, equal_fold, contains,
  cut_byte, cut_last_byte,
}
use trollbridge.Types.{RequestEvent, MatchedPattern}
use trollbridge.Policy.Window.{TimeWindow, Zones, in_window}
use trollbridge.Policy.History.{History, PriorDecisionMatch, match_history}

-- A map clause of the source is a list of its entries.
pub record Match : Type 0 where
  pub host : List Text
  pub port : List ℤ
  pub method : List Text
  pub path : Text
  pub path_prefix : Text
  pub path_regex : Text
  pub header_match : List (Text × Text)
  pub identity : Text
  pub content_type : Text
  pub body_pattern : Text
  pub time : Option TimeWindow
  pub prior_decision : Option PriorDecisionMatch
  pub pattern : Text
  pub components : List (Text × Text)

pub record Rule : Type 0 where
  pub id : Text
  pub description : Text
  pub priority : ℤ
  pub matcher : Match
  pub effect : Text
  pub modifiers : List Text
  pub expires : Text

-- What the rules need of their host: Go's regexp package, which gives a matcher or an error, and
-- the zone database.
pub record Host : Type 0 where
  pub regexp : Text → Option (Text → Bool)
  pub zones : Zones

pub record EvalContext : Type 0 where
  pub now : ℕ
  pub history : Option History

-- net.SplitHostPort; `none` is its error.
unfoldable pub split_host_port : Text → Option (Text × Text)
split_host_port s =
    if has_prefix s (codes "[")
    then elim (cut_byte b']' (tail s)) [
      | none ↦ none
      | some (host, after) ↦
          let port = tail after in
          if has_prefix after (codes ":")
            && not (contains port (codes ":"))
            && not (contains host (codes "["))
            && not (contains port (codes "["))
            && not (contains port (codes "]"))
          then some (host, port)
          else none
    ]
    else elim (cut_last_byte b':' s) [
      | none ↦ none
      | some (host, port) ↦
          if contains host (codes ":") || contains s (codes "[") || contains s (codes "]")
          then none
          else some (host, port)
    ]

unfoldable pub bare_host : Text → Text
bare_host h = elim (split_host_port h) [ none ↦ h | some (host, _) ↦ host ]

-- One pattern against a host that is lower case already.
unfoldable pub host_pattern_matches : Text → Text → Bool
host_pattern_matches host p =
    p == host
    || (has_prefix p (codes "*.")
        && has_suffix host (tail p)
        && ltb (length (tail p)) (length host))

unfoldable pub match_host : List Text → Text → Bool
unfolding host_pattern_matches bare_host split_host_port
match_host patterns host =
    any
      (λ (p : Text).
        host_pattern_matches (bare_host (to_lower (trim_space host))) (to_lower (trim_space p)))
      patterns

unfoldable pub contains_int : List ℤ → ℤ → Bool
contains_int haystack needle = any (λ (v : ℤ). v == needle) haystack

unfoldable pub contains_string_fold : List Text → Text → Bool
contains_string_fold haystack needle = any (λ (v : Text). equal_fold v needle) haystack

-- The bytes of an HTTP token.
unfoldable pub is_token : ℕ → Bool
is_token c =
    (leb b'a' c && leb c b'z')
    || (leb b'A' c && leb c b'Z')
    || (leb b'0' c && leb c b'9')
    || any (λ (t : ℕ). t == c) (codes "!#$%&'*+-.^_`|~")

unfoldable pub canonical_from : Bool → Text → Text
canonical_from start [] = []
canonical_from start (c ∷ s) = (if start then upper c else lower c) ∷ canonical_from (c == b'-') s

-- textproto.CanonicalMIMEHeaderKey
unfoldable pub canonical_key : Text → Text
unfolding is_token canonical_from
canonical_key s = if all is_token s then canonical_from true s else s

first_value : Option (List Text) → Text
first_value (some (v ∷ vs)) = v
first_value _ = []

-- http.Header.Get: the first value, or the empty text.
unfoldable pub header_get : List (Text × List Text) → Text → Text
unfolding canonical_key first_value lookup
header_get h name = first_value (lookup (canonical_key name) h)

-- A text that the pattern matches; a pattern that does not compile matches none.
unfoldable pub regexp_matches : Host → Text → Text → Bool
regexp_matches env pattern s = elim (env.regexp pattern) [ none ↦ false | some matches ↦ matches s ]

unfoldable pub header_matches : Host → List (Text × List Text) → Text → Text → Bool
header_matches env h name pattern =
    let val = header_get h name in if is_empty val then false else regexp_matches env pattern val

unfoldable pub component_matches : MatchedPattern → Text × Text → Bool
component_matches mp (k, want) =
    if is_empty want || want == codes "*"
    then true
    else elim (lookup k mp.components) [ none ↦ false | some got ↦ equal_fold got want ]

unfoldable pub pattern_matches : Text → List (Text × Text) → Option MatchedPattern → Bool
pattern_matches name components none = false
pattern_matches name components (some mp) = mp.name == name && all (component_matches mp) components

unfoldable pub time_matches : Host → Option TimeWindow → ℕ → Bool
time_matches env none now = true
time_matches env (some w) now = in_window env.zones w now

unfoldable pub prior_matches : Option PriorDecisionMatch → RequestEvent → EvalContext → Bool
prior_matches none req ctx = true
prior_matches (some m) req ctx = elim ctx.history [
  | none ↦ false
  | some h ↦ match_history h req m ctx.now
]

-- A body clause fails where the request carries no sample.
unfoldable pub body_matches : Host → Text → List ℕ → Bool
body_matches env pattern sample =
    if is_empty pattern
    then true
    else if is_empty sample
    then false
    else regexp_matches env pattern sample

-- The clauses in the order of the source, each of which passes where the rule leaves it out.
unfoldable pub matches : Host → Match → RequestEvent → EvalContext → Bool
matches env m req ctx =
    (is_empty m.host || match_host m.host req.host)
    && (is_empty m.port || contains_int m.port req.port)
    && (is_empty m.method || contains_string_fold m.method req.method)
    && (is_empty m.path || req.path == m.path)
    && (is_empty m.path_prefix || has_prefix req.path m.path_prefix)
    && (is_empty m.path_regex || regexp_matches env m.path_regex req.path)
    && (is_empty m.identity || m.identity == req.identity_id)
    && all (λ (h : Text × Text). header_matches env req.headers h.0 h.1) m.header_match
    && (is_empty m.content_type
        || equal_fold m.content_type (header_get req.headers (codes "Content-Type")))
    && time_matches env m.time ctx.now
    && prior_matches m.prior_decision req ctx
    && body_matches env m.body_pattern req.body_sample
    && (is_empty m.pattern || pattern_matches m.pattern m.components req.matched_pattern)

-- The same with the body clause taken out.
unfoldable pub matches_ignoring_body : Host → Match → RequestEvent → EvalContext → Bool
matches_ignoring_body env m req ctx = matches env (record m { body_pattern = [] }) req ctx

-- The clauses other than the body clause together with the body clause are the whole rule.
pub matches-body :
    (env : Host) (m : Match) (req : RequestEvent) (ctx : EvalContext)
    → matches env m req ctx
      ≡ (matches_ignoring_body env m req ctx && body_matches env m.body_pattern req.body_sample)
unfolding matches matches_ignoring_body body_matches
matches-body env m req ctx = ground arith
