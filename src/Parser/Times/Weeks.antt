-- ===== src/Parser/Times/Weeks.antt =====
-- The calendar of the import.
use uban_z.Prelude.{ℕ, ◌+◌, ◌-◌, ◌%◌, ◌≤◌, ◌<◌, ◌≡◌, ◌∙◌, ap, ◌⊎◌, arith}
use uban_z.Clock.{Time}
use uban_z.Parser.Times.{
  Location, weekday_of, year_day, iso_week, week_start, weekday_offset, monday_offset,
}

pub year_day-lt : (day : ℕ) → year_day day < 366
unfolding year_day
year_day-lt day = omega arith

pub iso_week_bounds : (day : ℕ) → (1 ≤ iso_week day) × (iso_week day ≤ 53)
unfolding iso_week
iso_week_bounds day = omega (arith, year_day-lt (day - day % 7 + 3))

abbrev pub nanoseconds_of_day : ℕ
nanoseconds_of_day = 86_400_000_000_000

-- A location where every day has each of its times once, such as one of a fixed offset from UTC.
pub record IsRegular (l : Location) : Type 0 where
  pub clock_lt : (t : Time) → l.clock t < nanoseconds_of_day
  pub day_date : (d c : ℕ) → c < nanoseconds_of_day → l.day (l.date d c) ≡ d
  pub clock_date : (d c : ℕ) → c < nanoseconds_of_day → l.clock (l.date d c) ≡ c

pub monday_offset_lem : (l : Location) (day : ℕ) → monday_offset l (weekday_of day) ≡ day % 7
monday_offset_lem l day = ground arith

-- The week of an instant starts on its Monday.
pub day-week_start :
    (l : Location) → IsRegular l → (t : Time) → l.day (week_start l t) ≡ l.day t - l.day t % 7
unfolding week_start
day-week_start l r t =
    r.day_date _ 0 (omega arith)
    ∙ r.day_date (l.day t - monday_offset l (weekday_of (l.day t))) (l.clock t) (r.clock_lt t)
    ∙ ap (λ n. l.day t - n) (monday_offset_lem l (l.day t))

pub clock-week_start : (l : Location) → IsRegular l → (t : Time) → l.clock (week_start l t) ≡ 0
unfolding week_start
clock-week_start l r t = r.clock_date _ 0 (omega arith)

-- The offset of a weekday leads from a Monday to that weekday.
pub weekday_offset_lem :
    (day weekday : ℕ)
    → day % 7 ≡ 0
    → weekday < 7
    → weekday_of (day + weekday_offset weekday) ≡ weekday
unfolding weekday_offset
weekday_offset_lem day weekday h k = ground arith

-- The ISO week of a day is one less than that of the day a week later, or the later one is the
-- first of a year.
pub iso_week_next : (day : ℕ) → (iso_week (day + 7) ≡ iso_week day + 1) ⊎ (iso_week (day + 7) ≡ 1)
unfolding iso_week year_day
iso_week_next day = omega arith
