-- ===== src/Policy/Window/Cycle.antt =====
-- The window as an arc of the day.
use trollbridge.Prelude.{
  ℕ, ◌+◌, ◌-◌, ◌%◌, ◌≤◌, ◌<◌, ◌≡◌, ◌↔◌, true, Bool-cases, inl, inr, arith, if◌then◌else◌, leb,
}
use trollbridge.Policy.Window.{in_range}

-- How many minutes pass from the first time of day until the clock shows the second for the first
-- time after; none if the two are the same.
abbrev pub minutes_between : ℕ → ℕ → ℕ
minutes_between start end = if leb start end then end - start else end + 1440 - start

-- For a start and a minute within the day and an end of at most 24:00, the minutes of the window are
-- those that a clock shows which starts at the window's start and runs for less than the
-- time from there to the window's end, going on at zero after 23:59.
pub in_range_iff :
    (start end cur : ℕ)
    → start < 1440
    → end ≤ 1440
    → cur < 1440
    → (in_range start end cur ≡ true)
      ↔ ((d : ℕ) × (d < minutes_between start end) × ((start + d) % 1440 ≡ cur))
unfolding in_range
in_range_iff start end cur s e c = (
  λ h. elim (Bool-cases (leb start cur)) [
    | inl later ↦ (cur - start, ground (arith, h, later), ground (arith, later))
    | inr sooner ↦ (cur + 1440 - start, ground (arith, h, sooner), ground (arith, sooner))
  ],
  λ (d, near, shown). ground (arith, near, shown),
)
