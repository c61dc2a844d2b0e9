-- ===== src/HostList/Sort.antt =====
-- internal/hostlist/sort.go: the order in which list files are written, and the edits of a list.
pub mod Stable
pub mod Order
pub mod Rewrite
pub mod Remove
use trollbridge.Prelude.{
  ℕ, Bool, true, false, not, ◌&&◌, ◌||◌, List, [], ◌∷◌, ◌++◌, map, Option, none, some, ltb, ◌==◌,
  nat_eq, list_eq, if◌then◌else◌, is_empty, length, any, filter_by,
}
use mathlib.Core.List.{reverse}
use mathlib.Core.Option
use trollbridge.Prelude.Int.{ℤ, pos, ltb_ℤ, int_eq}
use trollbridge.Prelude.Sort.{sort_stable}
use trollbridge.Text.{
  Text, codes, to_lower, trim_space, has_prefix, cut, cut_byte, cut_last_byte, split_byte, atoi,
  lt_text,
}

-- A label of the host, and whether it is the wildcard.
abbrev pub Label : Type 0
Label = Text × Bool

-- The two slices of labels and flags have one length: here they are one list.
pub record SortKey : Type 0 where
  pub host_labels : List Label
  pub port : ℤ
  pub path_str : Text

unfoldable pub label : Text → Label
label part = (part, part == codes "*")

unfoldable pub port_of : Text → ℤ
port_of ps = if is_empty ps || ps == codes "*" then pos 0 else Option.get_or (atoi ps) (pos 0)

unfoldable pub host_key : Text → Text → SortKey
host_key hostport path_str =
    let (host, port) : Text × ℤ = elim (cut_last_byte b':' hostport) [
      | none ↦ (hostport, pos 0)
      | some (host, ps) ↦ (host, port_of ps)
    ] in
    record {
      host_labels = map label (reverse (split_byte b'.' (to_lower (trim_space host))));
      port = port;
      path_str = path_str;
    }

-- A line without its inline comment.
unfoldable pub without_comment : Text → Text
without_comment line = elim (cut line (codes " #")) [
  | none ↦ line
  | some (before, after) ↦ trim_space before
]

unfoldable pub key_for : Text → SortKey
key_for line =
    let pat = without_comment line in
    elim (cut_byte b'/' pat) [
      | none ↦ host_key pat []
      | some (hostport, after) ↦ host_key hostport (b'/' ∷ after)
    ]

-- The loop of `less`, and the comparison of lengths after it: `none` if the labels are the same.
unfoldable pub less_labels : List Label → List Label → Option Bool
less_labels [] [] = none
less_labels [] (y ∷ ys) = some true
less_labels (x ∷ xs) [] = some false
less_labels ((a, af) ∷ xs) ((b, bf) ∷ ys) =
    let rest = less_labels xs ys in
    if af && not bf
    then some false
    else if not af && bf
    then some true
    else if a == b
    then rest
    else some (lt_text a b)

unfoldable pub less : SortKey → SortKey → Text → Text → Bool
less a b raw_a raw_b = elim (less_labels a.host_labels b.host_labels) [
  | some answer ↦ answer
  | none ↦
      if not (a.port == b.port)
      then ltb_ℤ a.port b.port
      else if not (a.path_str == b.path_str)
      then lt_text a.path_str b.path_str
      else lt_text raw_a raw_b
]

unfoldable pub is_comment : Text → Bool
is_comment line = has_prefix (trim_space line) (codes "#")

unfoldable pub is_blank : Text → Bool
is_blank line = is_empty (trim_space line)

-- The lines from the front that are comments, and the rest.
unfoldable pub leading_comments : List Text → List Text × List Text
leading_comments [] = ([], [])
leading_comments (ln ∷ lines) =
    let (leading, rest) = leading_comments lines in
    if is_comment ln then (ln ∷ leading, rest) else ([], ln ∷ lines)

unfoldable pub is_entry : Text → Bool
is_entry line = not (is_blank line) && not (is_comment line)

unfoldable pub entry_less : Text → Text → Bool
entry_less a b = less (key_for (trim_space a)) (key_for (trim_space b)) a b

-- The last line, which there is, is not blank.
unfoldable pub ends_in_text : List Text → Bool
ends_in_text [] = true
ends_in_text (ln ∷ []) = not (is_blank ln)
ends_in_text (ln ∷ l ∷ lines) = ends_in_text (l ∷ lines)

unfoldable pub smart : List Text → List Text
smart lines =
    let (leading, rest) = leading_comments lines in
    let entries = sort_stable entry_less (filter_by is_entry rest) in
    if not (is_empty leading) && not (is_empty entries) && ends_in_text leading
    then leading ++ [] ∷ entries
    else leading ++ entries

unfoldable pub normalize_pattern : Text → Text
normalize_pattern line =
    let t = trim_space line in
    if is_empty t || has_prefix t (codes "#") then [] else to_lower (without_comment t)

unfoldable pub append_unique : List Text → Text → List Text × Bool
append_unique lines given =
    let pattern = trim_space given in
    if is_empty pattern
    then (lines, false)
    else if any (λ ln. normalize_pattern ln == to_lower pattern) lines
    then (lines, false)
    else (smart (lines ++ pattern ∷ []), true)

unfoldable pub remove_matching : List Text → Text → List Text × Bool
remove_matching lines given =
    let pattern = to_lower (trim_space given) in
    if is_empty pattern then (lines, false) else (
      filter_by (λ ln. not (normalize_pattern ln == pattern)) lines,
      any (λ ln. normalize_pattern ln == pattern) lines,
    )
