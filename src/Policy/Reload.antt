-- ===== src/Policy/Reload.antt =====
-- internal/policy/engine.go: the engine's state, its construction, and the reload of rule files.
pub mod Order
pub mod Valid
use trollbridge.Prelude.{
  ℕ, suc, ◌+◌, Bool, true, false, not, ◌&&◌, ◌||◌, List, [], ◌∷◌, ◌++◌, Option, none, some, ◌==◌,
  nat_eq, list_eq, if◌then◌else◌, is_empty, any, map, Result, ok, err, ◌>>=◌, ◌>>◌, guard,
}
use trollbridge.Prelude.Int.{ℤ, pos, ltb_ℤ, int_eq}
use trollbridge.Prelude.Sort.{sort_stable}
use trollbridge.Text.{Text, codes}
use trollbridge.Types.{effect_allow, effect_deny, effect_ask_user, effect_ask_llm}
use trollbridge.Policy.History.{History, new_history}
use trollbridge.Policy.Rule.{Rule}

-- The errors of Reload. The texts around the names are left out.
pub data LoadError : Type 0 where
  unreadable : Text → LoadError
  unparsable : Text → LoadError
  missing_id : Text → ℕ → LoadError
  missing_effect : Text → ℕ → Text → LoadError
  invalid_effect : Text → ℕ → Text → Text → LoadError
  unknown_modifier : Text → Text → Text → LoadError
  components_without_pattern : Text → Text → LoadError
  bad_pattern : Text → Text → LoadError

-- A pattern name and the component keys that a rule constrains; true where they are registered.
abbrev pub PatternValidator : Type 0
PatternValidator = Text → List Text → Bool

pub record Engine : Type 0 where
  pub mode : Text
  pub include : List Text
  pub rules : List Rule
  pub version : Text
  pub known_modifiers : List Text
  pub patterns : Option PatternValidator
  pub history : History

-- The file system, the YAML decoder and SHA-256. `read` gives a file's bytes; `parse` the rules of
-- one document, or an error also where a second document follows; `digest` the first sixteen
-- hexadecimal digits of the hash.
pub record Loader : Type 0 where
  pub read : Text → Option (List ℕ)
  pub parse : List ℕ → Option (List Rule)
  pub digest : List ℕ → Text

unfoldable pub is_rule_effect : Text → Bool
is_rule_effect e =
    e == effect_allow || e == effect_deny || e == effect_ask_user || e == effect_ask_llm

unfoldable pub check_modifiers : List Text → Text → Text → List Text → Result LoadError (Unit {0})
check_modifiers known path id [] = ok tt
check_modifiers known path id (m ∷ ms) =
    if any (λ (k : Text). k == m) known
    then check_modifiers known path id ms
    else err (unknown_modifier path id m)

unfoldable pub check_pattern : Option PatternValidator → Text → Rule → Result LoadError (Unit {0})
check_pattern validator path r =
    if is_empty r.matcher.pattern
    then guard (is_empty r.matcher.components) (components_without_pattern path r.id)
    else elim validator [
      | none ↦ ok tt
      | some valid ↦
          guard (valid r.matcher.pattern (map (λ (c : Text × Text). c.0) r.matcher.components))
            (bad_pattern path r.id)
    ]

unfoldable pub default_priority : Rule → Rule
default_priority r = if r.priority == pos 0 then record r { priority = pos 100 } else r

-- The checks on one rule, in order, and its default priority.
unfoldable pub check_rule :
    List Text → Option PatternValidator → Text → ℕ → Rule → Result LoadError Rule
check_rule known validator path i r = do
  guard (not (is_empty r.id)) (missing_id path i)
  guard (not (is_empty r.effect)) (missing_effect path i r.id)
  guard (is_rule_effect r.effect) (invalid_effect path i r.id r.effect)
  check_modifiers known path r.id r.modifiers
  check_pattern validator path r
  ok (default_priority r)

unfoldable pub check_rules :
    List Text → Option PatternValidator → Text → ℕ → List Rule → Result LoadError (List Rule)
check_rules known validator path i [] = ok []
check_rules known validator path i (r ∷ rs) = do
  r' ← check_rule known validator path i r
  rs' ← check_rules known validator path (i + 1) rs
  ok (r' ∷ rs')

abbrev pub or_error {ℓ} : {A : Type ℓ} → Option A → LoadError → Result LoadError A
or_error none e = err e
or_error (some a) e = ok a

-- The rules of the files in order, and the bytes that go into the hash.
unfoldable pub load_files :
    Loader → List Text → Option PatternValidator → List Text → Result LoadError (List Rule × List ℕ)
load_files l known validator [] = ok ([], [])
load_files l known validator (path ∷ paths) = do
  bytes ← or_error (l.read path) (unreadable path)
  raw ← or_error (l.parse bytes) (unparsable path)
  rules ← check_rules known validator path 0 raw
  rest ← load_files l known validator paths
  ok (rules ++ rest.0, bytes ++ rest.1)

-- `rules[i].Priority > rules[j].Priority`
unfoldable pub before : Rule → Rule → Bool
before a b = ltb_ℤ b.priority a.priority

-- The engine after Reload, and the error it returned. On an error the old rules stay.
unfoldable pub reload : Loader → Engine → Engine × Option LoadError
reload l e = elim (load_files l e.known_modifiers e.patterns e.include) [
  | err x ↦ (e, some x)
  | ok (rules, bytes) ↦
      (record e { rules = sort_stable before rules; version = l.digest bytes }, none)
]

unfoldable pub set_pattern_validator :
    Loader → PatternValidator → Engine → Engine × Option LoadError
set_pattern_validator l v e = reload l (record e { patterns = some v })

unfoldable pub set_mode : Text → Engine → Engine
set_mode mode e = record e { mode = mode }

-- NewEngine: no engine where the first load fails.
unfoldable pub new_engine : Loader → Text → List Text → List Text → Result LoadError Engine
new_engine l mode include known =
    let (e, failure) = reload l (record {
      mode = mode;
      include = include;
      rules = [];
      version = [];
      known_modifiers = known;
      patterns = none;
      history = new_history 2048;
    }) in
    elim failure [ none ↦ ok e | some x ↦ err x ]

unfoldable pub known_modifier_names : List Text
known_modifier_names = codes "redact_authorization_header" ∷ codes "redact_cookie" ∷ []
