-- ===== src/Redact/Body.antt =====
-- internal/redact/redact.go: Body and Query, the replacement at a JSON path, and SampleForAudit. A
-- compiled regular expression and the JSON codec are parameters.
use trollbridge.Prelude.{
  ℕ, zero, suc, Bool, true, false, not, ◌&&◌, ◌||◌, List, [], ◌∷◌, Option, none, some, leb, ◌==◌,
  nat_eq, list_eq, if◌then◌else◌, is_empty, length,
}
use trollbridge.Prelude.Int.{ℤ, pos, pos_part, ltb_ℤ}
use trollbridge.Text.{
  Text, codes, to_lower, trim_space, trim_prefix, has_suffix, cut_byte, split_byte,
}
use trollbridge.Redact.Headers.{redacted_mark}

-- A decoded value: an object with its fields, or any other value, by its text.
mutual
  pub data Json : Type 0 where
    object : Fields → Json
    other : Text → Json

  pub data Fields : Type 0 where
    end : Fields
    field : Text → Json → Fields → Fields

unfoldable pub get_field : Text → Fields → Option Json
get_field key end = none
get_field key (field k v rest) =
    let later = get_field key rest in if k == key then some v else later

unfoldable pub set_field : Text → Json → Fields → Fields
set_field key new end = field key new end
set_field key new (field k v rest) =
    let later = set_field key new rest in if k == key then field k new rest else field k v later

-- The value is changed in place in the source: here the changed value is returned with the answer.
unfoldable pub walk_and_replace : List Text → Json → Bool × Json
walk_and_replace [] v = (false, v)
walk_and_replace (key ∷ parts) (other t) = (false, other t)
walk_and_replace (key ∷ []) (object fields) = elim (get_field key fields) [
  | none ↦ (false, object fields)
  | some _ ↦ (true, object (set_field key (other redacted_mark) fields))
]
walk_and_replace (key ∷ part ∷ parts) (object fields) = elim (get_field key fields) [
  | none ↦ (false, object fields)
  | some value ↦
      let (done, changed) = walk_and_replace (part ∷ parts) value in
      (done, object (set_field key changed fields))
]

abbrev starts_empty : List Text → Bool
starts_empty [] = true
starts_empty (part ∷ parts) = is_empty part

unfoldable pub redact_json_path : Json → Text → Bool × Json
redact_json_path v path =
    let parts = split_byte 46 (trim_prefix path (codes "$.")) in
    if starts_empty parts then (false, v) else walk_and_replace parts v

unfoldable pub redact_paths : List Text → Json × ℕ → Json × ℕ
redact_paths [] st = st
redact_paths (p ∷ paths) (v, n) =
    let (done, changed) = redact_json_path v p in
    redact_paths paths (changed, if done then suc n else n)

-- regexp.Regexp: Match, and ReplaceAll with the mark.
pub record Regexp : Type 0 where
  pub hits : Text → Bool
  pub replace_all : Text → Text

unfoldable pub redact_regexes : List Regexp → Text × ℕ → Text × ℕ
redact_regexes [] st = st
redact_regexes (re ∷ regexes) (out, n) =
    redact_regexes regexes (if re.hits out then (re.replace_all out, suc n) else (out, n))

-- json.Unmarshal and the encoder without HTML escapes.
pub record JsonCodec : Type 0 where
  pub unmarshal : Text → Option Json
  pub encode : Json → Option Text

pub record RedactConfig : Type 0 where
  pub body_json_paths : List Text
  pub body_regexes : List Regexp
  pub query_regexes : List Regexp
  pub header_modifiers : List Text

unfoldable pub is_json : Text → Bool
is_json ct =
    let t = to_lower (trim_space ct) in
    let media : Text = elim (cut_byte 59 t) [ none ↦ t | some (before, _) ↦ trim_space before ] in
    media == codes "application/json" || has_suffix media (codes "+json")

-- bytes.TrimRight of newlines
unfoldable pub trim_newlines : Text → Text
trim_newlines [] = []
trim_newlines (c ∷ s) =
    let rest = trim_newlines s in if is_empty rest && c == 10 then [] else c ∷ rest

unfoldable pub redact_json : JsonCodec → List Text → Text → Text × ℕ
redact_json codec paths body = elim (codec.unmarshal body) [
  | none ↦ (body, 0)
  | some v ↦
      let (changed, n) = redact_paths paths (v, 0) in
      elim (codec.encode changed) [ none ↦ (body, n) | some text ↦ (trim_newlines text, n) ]
]

unfoldable pub redact_body : JsonCodec → RedactConfig → Text → Text → Text × ℕ
redact_body codec c body content_type =
    if is_empty body
    then (body, 0)
    else redact_regexes c.body_regexes (
        if is_json content_type && not (is_empty c.body_json_paths)
        then redact_json codec c.body_json_paths body
        else (body, 0))

unfoldable pub redact_query : RedactConfig → Text → Text × ℕ
redact_query c raw = if is_empty raw then ([], 0) else redact_regexes c.query_regexes (raw, 0)

abbrev pub first_bytes : ℕ → Text → Text
first_bytes n [] = []
first_bytes zero (c ∷ s) = []
first_bytes (suc n) (c ∷ s) = c ∷ first_bytes n s

unfoldable pub sample_for_audit : List ℕ → ℤ → List ℕ × Bool
sample_for_audit b max_bytes =
    if not (ltb_ℤ (pos 0) max_bytes)
    then ([], false)
    else if leb (length b) (pos_part max_bytes)
    then (b, false)
    else (first_bytes (pos_part max_bytes) b, true)

-- Compile, where the parameter compiles one pattern.
unfoldable pub compile_all : (Text → Option Regexp) → List Text → Option (List Regexp)
compile_all compile [] = some []
compile_all compile (p ∷ ps) = elim (compile p) [
  | none ↦ none
  | some re ↦ elim (compile_all compile ps) [ none ↦ none | some res ↦ some (re ∷ res) ]
]

unfoldable pub compile_config :
    (Text → Option Regexp) → List Text → List Text → List Text → List Text → Option RedactConfig
compile_config compile json_paths body_patterns query_patterns header_mods =
    elim (compile_all compile body_patterns) [
      | none ↦ none
      | some body ↦ elim (compile_all compile query_patterns) [
        | none ↦ none
        | some query ↦ some (record {
          body_json_paths = json_paths;
          body_regexes = body;
          query_regexes = query;
          header_modifiers = header_mods;
        })
      ]
    ]
