-- ===== src/Clients/Reloads.antt =====
-- internal/reloadstatus/reloadstatus.go: the outcome of each source's last reload.
use trollbridge.Prelude.{
  ℕ, List, [], ◌∷◌, Option, none, some, nat_eq, list_eq, if◌then◌else◌, is_empty,
}
use trollbridge.Prelude.Maps.{insert}
use trollbridge.Prelude.Sort.{sort_stable}
use trollbridge.Text.{Text, lt_text}

pub record Status : Type 0 where
  pub last_error : Text
  pub last_at : ℕ
  pub last_source : Text
  pub failing_sources : List Text

pub record ReloadTracker : Type 0 where
  pub sources : List (Text × Status)
  pub most_recent : Status

abbrev pub zero_status : Status
zero_status = record { last_error = []; last_at = 0; last_source = []; failing_sources = [] }

-- The error is its text, and none on success.
unfoldable pub record_reload : ℕ → Text → Option Text → ReloadTracker → ReloadTracker
record_reload now source problem t =
    let s = record zero_status {
      last_at = now;
      last_source = source;
      last_error = elim problem [ none ↦ [] | some text ↦ text ];
    } in
    record { sources = insert source s t.sources; most_recent = s }

unfoldable pub failing : List (Text × Status) → List Text
failing [] = []
failing ((name, s) ∷ sources) =
    let rest = failing sources in if is_empty s.last_error then rest else name ∷ rest

unfoldable pub failing_sources : ReloadTracker → List Text
failing_sources t = sort_stable lt_text (failing t.sources)

unfoldable pub get_status : ReloadTracker → Status
get_status t =
    let names = failing_sources t in
    if is_empty names then t.most_recent else record t.most_recent { failing_sources = names }
