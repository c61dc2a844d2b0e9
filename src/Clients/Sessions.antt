-- ===== src/Clients/Sessions.antt =====
-- internal/sessions/sessions.go: the tracker, one session for each client address. A pointer to a
-- session that a caller holds is a copy here, since callers only read it.
use trollbridge.Prelude.{
  ℕ, suc, not, ◌&&◌, List, [], ◌++◌, none, some, ◌==◌, nat_eq, list_eq, if◌then◌else◌, is_empty,
  map,
}
use trollbridge.Prelude.Maps.{lookup, insert, delete}
use trollbridge.Text.{Text, codes}

pub record Session : Type 0 where
  pub id : Text
  pub identity_id : Text
  pub client_addr : Text
  pub started_at : ℕ
  pub last_activity : ℕ
  pub decision_count : ℕ

abbrev pub Tracker : Type 0
Tracker = List (Text × Session)

abbrev pub new_tracker : Tracker
new_tracker = []

unfoldable pub touched : ℕ → Text → Session → Session
touched now identity s = record s {
  last_activity = now;
  decision_count = suc s.decision_count;
  identity_id =
      if not (is_empty identity) && not (identity == codes "anonymous")
      then identity
      else s.identity_id;
}

-- `uuid` is a fresh UUID.
unfoldable pub get_or_create : ℕ → Text → Text → Text → Tracker → Session × Tracker
get_or_create now uuid addr identity t = elim (lookup addr t) [
  | some s ↦ (touched now identity s, insert addr (touched now identity s) t)
  | none ↦
      let s : Session = record {
        id = codes "sess-" ++ uuid;
        identity_id = identity;
        client_addr = addr;
        started_at = now;
        last_activity = now;
        decision_count = 0;
      } in
      (s, insert addr s t)
]

unfoldable pub drop_session : Text → Tracker → Tracker
drop_session addr t = delete addr t

-- Go visits a map in any order: the sessions come in that of the list.
unfoldable pub snapshot_sessions : Tracker → List Session
snapshot_sessions t = map (λ entry. entry.1) t
