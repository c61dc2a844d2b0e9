-- ===== src/Opstream/Ring.antt =====
-- internal/opstream/opstream.go: the types Op and Ring, and every operation that changes a ring. A
-- pointer to an Op stands only in the map, so that the map holds the value.
use trollbridge.Prelude.{
  ℕ, Bool, true, false, List, [], ◌∷◌, ◌++◌, none, some, leb, ltb, ◌==◌, nat_eq, list_eq,
  if◌then◌else◌, is_some, length,
}
use trollbridge.Prelude.Int.{ℤ, pos, pos_part, ltb_ℤ}
use trollbridge.Prelude.Maps.{lookup, insert, delete}
use trollbridge.Text.{Text, codes}

abbrev pub default_cap : ℕ
default_cap = 50

abbrev pub status_checking : Text
status_checking = codes "checking"

abbrev pub status_pending : Text
status_pending = codes "pending"

abbrev pub status_running : Text
status_running = codes "running"

abbrev pub status_error : Text
status_error = codes "error"

abbrev pub status_denied : Text
status_denied = codes "denied"

abbrev pub status_signaled : Text
status_signaled = codes "signaled"

pub record Op : Type 0 where
  pub request_id : Text
  pub method : Text
  pub url : Text
  pub status : Text
  pub hold_id : Text
  pub started_at : ℕ
  pub updated_at : ℕ
  pub latency_ms : ℤ
  pub response_size_bytes : ℤ

-- The oldest id is at the front of `order`. The clock is an argument of the operations.
pub record Ring : Type 0 where
  pub cap : ℕ
  pub items : List (Text × Op)
  pub order : List Text

unfoldable pub new_ring : ℤ → Ring
new_ring cap = record {
  cap = if ltb_ℤ (pos 0) cap then pos_part cap else default_cap;
  items = [];
  order = [];
}

-- On an empty order the source's index panics, which a positive capacity rules out.
unfoldable pub evict_oldest : Ring → Ring
evict_oldest r = elim r.order [
  | [] ↦ r
  | oldest ∷ rest ↦ record r { order = rest; items = delete oldest r.items }
]

unfoldable pub append_op : Op → Ring → Ring
append_op op r = record r {
  items = insert op.request_id op r.items;
  order = r.order ++ op.request_id ∷ [];
}

unfoldable pub fresh_op : ℕ → Text → Text → Text → Op
fresh_op now id method url = record {
  request_id = id;
  method = method;
  url = url;
  status = status_checking;
  hold_id = [];
  started_at = now;
  updated_at = now;
  latency_ms = pos 0;
  response_size_bytes = pos 0;
}

unfoldable pub begin : ℕ → Text → Text → Text → Ring → Ring
begin now id method url r = elim (lookup id r.items) [
  | some op ↦ record r { items = insert id (record op { updated_at = now }) r.items }
  | none ↦
      append_op (fresh_op now id method url)
        (if leb r.cap (length r.order) then evict_oldest r else r)
]

unfoldable pub hold_pending : ℕ → Text → Text → Ring → Ring
hold_pending now id hold_id r = elim (lookup id r.items) [
  | none ↦ r
  | some op ↦ record r {
    items =
        insert id (record op { status = status_pending; hold_id = hold_id; updated_at = now })
          r.items;
  }
]

-- The first occurrence of an id takes another name.
unfoldable pub rename_first : Text → Text → List Text → List Text
rename_first old new [] = []
rename_first old new (id ∷ ids) = if id == old then new ∷ ids else id ∷ rename_first old new ids

unfoldable pub relabelled : ℕ → Text → Text → Text → Op → Op
relabelled now id method url op = record op {
  request_id = id;
  method = method;
  url = url;
  status = status_checking;
  hold_id = [];
  updated_at = now;
}

unfoldable pub rebind : ℕ → Text → Text → Text → Text → Ring → Bool × Ring
rebind now old new method url r = elim (lookup old r.items) [
  | none ↦ (false, r)
  | some op ↦
      if old == new
      then (
        true,
        record r { items = insert old (relabelled now op.request_id method url op) r.items },
      )
      else if is_some (lookup new r.items)
      then (false, r)
      else (
        true,
        record r {
          items = insert new (relabelled now new method url op) (delete old r.items);
          order = rename_first old new r.order;
        },
      )
]

unfoldable pub positive_or : ℤ → ℤ → ℤ
positive_or new old = if ltb_ℤ (pos 0) new then new else old

unfoldable pub resolve : ℕ → Text → Text → ℤ → ℤ → Ring → Ring
resolve now id status latency_ms size_bytes r = elim (lookup id r.items) [
  | none ↦ r
  | some op ↦ record r {
    items =
        insert id
          (record op {
            status = status;
            hold_id = [];
            updated_at = now;
            latency_ms = positive_or latency_ms op.latency_ms;
            response_size_bytes = positive_or size_bytes op.response_size_bytes;
          })
          r.items;
  }
]

-- The rows in insertion order.
unfoldable pub rows : List Text → List (Text × Op) → List Op
rows [] items = []
rows (id ∷ ids) items =
    let rest = rows ids items in elim (lookup id items) [ none ↦ rest | some op ↦ op ∷ rest ]

-- One row moves left past the rows of the sorted part that are older; the part is given from its end.
unfoldable pub sift : Op → List Op → List Op
sift op [] = op ∷ []
sift op (before ∷ others) =
    let later = before ∷ sift op others in
    if ltb before.updated_at op.updated_at then later else op ∷ before ∷ others

unfoldable pub reversed : List Op → List Op → List Op
reversed [] acc = acc
reversed (op ∷ ops) acc = reversed ops (op ∷ acc)

unfoldable pub sift_all : List Op → List Op → List Op
sift_all sorted [] = sorted
sift_all sorted (op ∷ ops) = sift_all (sift op sorted) ops

unfoldable pub sort_by_updated_desc : List Op → List Op
sort_by_updated_desc ops = reversed (sift_all [] ops) []

unfoldable pub snapshot : Ring → List Op
snapshot r = sort_by_updated_desc (rows r.order r.items)
