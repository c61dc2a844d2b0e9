-- ===== src/Policy/Window.antt =====
-- internal/policy/timewindow.go: the hour-of-day and weekday window of a rule.
pub mod Cycle
use trollbridge.Prelude.{
  ℕ, ◌+◌, ◌-◌, ◌*◌, ◌/◌, ◌%◌, Bool, true, false, not, ◌&&◌, ◌||◌, List, [], ◌∷◌, Option, none, some,
  leb, ltb, ◌==◌, nat_eq, list_eq, if◌then◌else◌, is_empty, any, Result, ok, err, ◌>>=◌,
}
use trollbridge.Prelude.Int.{ℤ, pos, negsuc}
use trollbridge.Text.{Text, codes, to_lower, trim_space, is_space, cut_byte, atoi}

-- What `t.In(loc)` says of a time: the weekday, Sunday first, and the wall clock.
pub record Clock : Type 0 where
  pub weekday : ℕ
  pub hour : ℕ
  pub minute : ℕ

pub record TimeWindow : Type 0 where
  pub hours : Text
  pub weekdays : List Text
  pub tz : Text

-- The zone database of the host: `none` where LoadLocation fails.
abbrev pub Zones : Type 0
Zones = Text → Option (ℕ → Clock)

-- UTC, from nanoseconds since the first of January 1970, a Thursday.
unfoldable pub utc : ℕ → Clock
utc t =
    let minutes = t / 60_000_000_000 in
    record { weekday = (4 + minutes / 1440) % 7; hour = minutes / 60 % 24; minute = minutes % 60 }

-- The English name of a weekday in lower case.
unfoldable pub weekday_name : ℕ → Text
weekday_name d =
    if d == 0
    then codes "sunday"
    else if d == 1
    then codes "monday"
    else if d == 2
    then codes "tuesday"
    else if d == 3
    then codes "wednesday"
    else if d == 4
    then codes "thursday"
    else if d == 5
    then codes "friday"
    else codes "saturday"

abbrev first_three : Text → Text
first_three (a ∷ b ∷ c ∷ s) = a ∷ b ∷ c ∷ []
first_three s = s

unfoldable pub weekday_match : ℕ → List Text → Bool
unfolding weekday_name
weekday_match d [] = true
weekday_match d (w ∷ list) =
    any
      (λ (x : Text).
        let v = to_lower (trim_space x) in
        v == codes "all" || v == first_three (weekday_name d) || v == weekday_name d)
      (w ∷ list)

-- fmt.Sscanf with %d: blanks, a sign, and the longest run of digits; what follows is ignored.
digit_run : Text → Text
digit_run [] = []
digit_run (c ∷ s) = if leb b'0' c && leb c b'9' then c ∷ digit_run s else []

skip_blanks : Text → Text
skip_blanks [] = []
skip_blanks (c ∷ s) = if is_space c && not (c == 10) then skip_blanks s else c ∷ s

signed_run : Text → Text
signed_run [] = []
signed_run (c ∷ s) = if c == b'-' || c == b'+' then c ∷ digit_run s else digit_run (c ∷ s)

unfoldable pub scan_int : Text → Option ℤ
unfolding digit_run skip_blanks signed_run
scan_int s = atoi (signed_run (skip_blanks s))

-- Minutes from midnight, or the error "invalid HH:MM".
unfoldable pub minutes_of : ℤ → ℤ → Option ℕ
minutes_of (pos h) (pos m) = if ltb 24 h || ltb 59 m then none else some (h * 60 + m)
minutes_of (pos h) (negsuc m) = none
minutes_of (negsuc h) m = none

infixl 5 ◌>>=?◌
abbrev ◌>>=?◌ : {A B : Type 0} → Option A → (A → Option B) → Option B
none >>=? f = none
some a >>=? f = f a

unfoldable pub parse_hhmm : Text → Option ℕ
unfolding minutes_of scan_int
parse_hhmm s = cut_byte b':' s >>=? λ (parts : Text × Text).
    scan_int parts.0 >>=? λ (h : ℤ). scan_int parts.1 >>=? λ (m : ℤ). minutes_of h m

unfoldable pub parse_hour_range : Text → Option (ℕ × ℕ)
unfolding parse_hhmm
parse_hour_range s = cut_byte b'-' s >>=? λ (parts : Text × Text).
    parse_hhmm (trim_space parts.0) >>=? λ (start : ℕ).
    parse_hhmm (trim_space parts.1) >>=? λ (end : ℕ). some (start, end)

-- The range of minutes, which wraps round midnight where its end is before its start.
unfoldable pub in_range : ℕ → ℕ → ℕ → Bool
in_range start end cur =
    if leb start end then leb start cur && ltb cur end else leb start cur || ltb cur end

unfoldable pub clock_in : Zones → Text → ℕ → Clock
unfolding utc
clock_in zones tz t =
    if is_empty tz then utc t else elim (zones tz) [ none ↦ utc t | some local ↦ local t ]

unfoldable pub in_window : Zones → TimeWindow → ℕ → Bool
unfolding clock_in weekday_match parse_hour_range in_range
in_window zones w t =
    let c = clock_in zones w.tz t in
    if weekday_match c.weekday w.weekdays
    then if is_empty w.hours then true else elim (parse_hour_range w.hours) [
      | none ↦ false
      | some (start, end) ↦ in_range start end (c.hour * 60 + c.minute)
    ]
    else false
