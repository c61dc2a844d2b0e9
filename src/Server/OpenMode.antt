-- ===== src/Server/OpenMode.antt =====
-- internal/server/openmode.go: the time-boxed window in which all traffic is allowed.
pub mod Presses
use trollbridge.Prelude.{
  ℕ, suc, ◌+◌, ◌-◌, ◌*◌, Bool, true, false, not, List, [], ◌∷◌, Option, none, some, ltb, leb,
  if◌then◌else◌, length, get_elem?,
}
use mathlib.Core.Option

abbrev pub minute : ℕ
minute = 60_000_000_000

abbrev pub open_mode_increments : List ℕ
open_mode_increments = minute ∷ minute ∷ 3 * minute ∷ 5 * minute ∷ 20 * minute ∷ 30 * minute ∷ []

-- The zero time is 0.
pub record OpenMode : Type 0 where
  pub until : ℕ
  pub press_count : ℕ

-- The slice at an index that is first brought within its bounds.
unfoldable pub increment : ℕ → ℕ
increment i =
    let idx = if leb (length open_mode_increments) i then length open_mode_increments - 1 else i in
    Option.get_or (get_elem? open_mode_increments idx) 0

unfoldable pub extend : ℕ → OpenMode → OpenMode
extend now o =
    let idx = if not (ltb now o.until) then 0 else o.press_count in
    let base = if ltb o.until now then now else o.until in
    record { until = base + increment idx; press_count = suc idx }

unfoldable pub close : OpenMode → OpenMode
close o = record { until = 0; press_count = 0 }

unfoldable pub state : OpenMode → ℕ → Bool × ℕ
state o now = (ltb now o.until, o.until)
