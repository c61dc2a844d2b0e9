-- ===== src/Text.antt =====
-- Go strings as lists of bytes, and the functions of Go's `strings` and `strconv` packages that the
-- modelled code calls. Case mapping and white space are those of ASCII. A slice `s[:i]`, `s[i+k:]` at the index that a search returns is the pair which
-- the `cut` functions give.
pub mod Affix
pub mod Laws
pub mod Decimal
use Prim.Native.Char.{code}
use Prim.Native.String.{String}
use mathlib.Core.List.{reverse}
use mathlib.Core.Option
use trollbridge.Prelude.{
  ℕ, ◌+◌, ◌-◌, ◌*◌, Bool, true, false, ◌&&◌, ◌||◌, List, [], ◌∷◌, map, Option, none, some, ltb, leb,
  ◌==◌, nat_eq, list_eq, if◌then◌else◌, is_some, is_empty,
}
use trollbridge.Prelude.Int.{ℤ, pos, negsuc}

abbrev pub Text : Type 0
Text = List ℕ

abbrev pub codes : String → Text
codes String.[] = []
codes (String.◌∷◌ c s) = code c ∷ codes s

unfoldable pub is_upper : ℕ → Bool
is_upper c = leb b'A' c && leb c b'Z'

unfoldable pub lower : ℕ → ℕ
unfolding is_upper
lower c = if is_upper c then c + 32 else c

unfoldable pub upper : ℕ → ℕ
upper c = if leb b'a' c && leb c b'z' then c - 32 else c

-- strings.ToLower, strings.ToUpper
unfoldable pub to_lower : Text → Text
unfolding lower
to_lower = map lower

unfoldable pub to_upper : Text → Text
unfolding upper
to_upper = map upper

-- strings.EqualFold
unfoldable pub equal_fold : Text → Text → Bool
unfolding to_lower
equal_fold s t = to_lower s == to_lower t

-- \t \n \v \f \r and the blank
unfoldable pub is_space : ℕ → Bool
is_space c = (leb 9 c && leb c 13) || c == b' '

unfoldable pub trim_left : Text → Text
unfolding is_space
trim_left [] = []
trim_left (c ∷ s) = if is_space c then trim_left s else c ∷ s

unfoldable pub trim_right : Text → Text
unfolding is_space
trim_right [] = []
trim_right (c ∷ s) = let rest = trim_right s in if is_space c && is_empty rest then [] else c ∷ rest

-- strings.TrimSpace
unfoldable pub trim_space : Text → Text
unfolding trim_left trim_right
trim_space s = trim_right (trim_left s)

-- What follows the prefix, if `s` begins with it.
unfoldable pub strip_prefix : Text → Text → Option Text
strip_prefix s [] = some s
strip_prefix [] (p ∷ ps) = none
strip_prefix (c ∷ s) (p ∷ ps) = if c == p then strip_prefix s ps else none

-- strings.HasPrefix
unfoldable pub has_prefix : Text → Text → Bool
unfolding strip_prefix
has_prefix s p = is_some (strip_prefix s p)

-- strings.HasSuffix
unfoldable pub has_suffix : Text → Text → Bool
has_suffix [] t = [] == t
has_suffix (c ∷ s) t = c ∷ s == t || has_suffix s t

-- strings.TrimPrefix
unfoldable pub trim_prefix : Text → Text → Text
unfolding strip_prefix
trim_prefix s p = Option.get_or (strip_prefix s p) s

-- strings.TrimSuffix
unfoldable pub trim_suffix : Text → Text → Text
trim_suffix [] t = []
trim_suffix (c ∷ s) t = if c ∷ s == t then [] else c ∷ trim_suffix s t

-- strings.Index(s, sep): what stands before and after the first occurrence.
unfoldable pub cut : Text → Text → Option (Text × Text)
unfolding strip_prefix
cut [] sep = if is_empty sep then some ([], []) else none
cut (c ∷ s) sep = elim (strip_prefix (c ∷ s) sep) [
  | some after ↦ some ([], after)
  | none ↦ Option.map (λ (r : Text × Text). (c ∷ r.0, r.1)) (cut s sep)
]

-- strings.Contains
unfoldable pub contains : Text → Text → Bool
unfolding cut
contains s sep = is_some (cut s sep)

-- strings.IndexByte
unfoldable pub cut_byte : ℕ → Text → Option (Text × Text)
cut_byte b [] = none
cut_byte b (c ∷ s) =
    if c == b then some ([], s) else Option.map (λ (r : Text × Text). (c ∷ r.0, r.1)) (cut_byte b s)

-- strings.LastIndexByte
unfoldable pub cut_last_byte : ℕ → Text → Option (Text × Text)
cut_last_byte b [] = none
cut_last_byte b (c ∷ s) = elim (cut_last_byte b s) [
  | some r ↦ some (c ∷ r.0, r.1)
  | none ↦ if c == b then some ([], s) else none
]

unfoldable pub split_from : ℕ → Text → Text → List Text
split_from b word [] = reverse word ∷ []
split_from b word (c ∷ s) =
    let closed = reverse word ∷ split_from b [] s in
    let longer = split_from b (c ∷ word) s in if c == b then closed else longer

-- strings.Split at one byte
unfoldable pub split_byte : ℕ → Text → List Text
unfolding split_from
split_byte b s = split_from b [] s

-- Go's `<` on strings
unfoldable pub lt_text : Text → Text → Bool
lt_text s [] = false
lt_text [] (d ∷ t) = true
lt_text (c ∷ s) (d ∷ t) = ltb c d || (c == d && lt_text s t)

digits_value : ℕ → Text → Option ℕ
digits_value acc [] = some acc
digits_value acc (c ∷ s) =
    let more = digits_value (acc * 10 + (c - b'0')) s in
    if leb b'0' c && leb c b'9' then more else none

natural : Text → Option ℕ
unfolding digits_value
natural s = if is_empty s then none else digits_value 0 s

int_min_abs : ℕ
int_min_abs = 0x8000_0000_0000_0000

negated : ℕ → Option ℤ
unfolding int_min_abs
negated n =
    if n == 0 then some (pos 0) else if leb n int_min_abs then some (negsuc (n - 1)) else none

bounded : ℕ → Option ℤ
unfolding int_min_abs
bounded n = if ltb n int_min_abs then some (pos n) else none

-- strconv.Atoi: an optional sign, decimal digits, within int64; `none` is its error.
unfoldable pub atoi : Text → Option ℤ
unfolding natural negated bounded
atoi [] = none
atoi (c ∷ s) =
    if c == b'-'
    then Option.bind (natural s) negated
    else if c == b'+'
    then Option.bind (natural s) bounded
    else Option.bind (natural (c ∷ s)) bounded
