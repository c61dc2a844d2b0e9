-- ===== src/Tests/Rows.antt =====
-- The ring of operations, with one row.
use mathlib.Core.List.{Perm}
use trollbridge.Prelude.{ℕ, ◌≡◌, ◌==◌, nat_eq, list_eq, map, filter_by}
use trollbridge.Prelude.Int.{pos}
use trollbridge.Prelude.Sort.{IsSorted}
use trollbridge.Text.{codes}
use trollbridge.Opstream.Ring.{Ring, new_ring, begin, rows, snapshot}
use trollbridge.Opstream.Steps.{IsRing, Reach, begins}
use trollbridge.Opstream.Invariant.{Reach-IsRing}
use trollbridge.Opstream.Snapshot.{newer, snapshot-rows}

abbrev one_row : Ring
one_row = begin 7 (codes "req-1") (codes "GET") (codes "http://api.github.com/") (new_ring (pos 2))

to_row : Reach (new_ring (pos 2)) one_row
to_row =
    Reach.next Reach.here (begins 7 (codes "req-1") (codes "GET") (codes "http://api.github.com/"))

Reach-IsRing_example : IsRing one_row × (one_row.cap ≡ (new_ring (pos 2)).cap)
Reach-IsRing_example = Reach-IsRing (pos 2) one_row to_row

one_row-IsRing : IsRing one_row
one_row-IsRing = (Reach-IsRing (pos 2) one_row to_row).0

snapshot-rows_example :
    (map (λ op. op.request_id) (rows one_row.order one_row.items) ≡ one_row.order)
    × Perm (snapshot one_row) (rows one_row.order one_row.items)
    × IsSorted newer (snapshot one_row)
    × ((t : ℕ)
        → filter_by (λ op. op.updated_at == t) (snapshot one_row)
          ≡ filter_by (λ op. op.updated_at == t) (rows one_row.order one_row.items))
snapshot-rows_example = snapshot-rows one_row one_row-IsRing
