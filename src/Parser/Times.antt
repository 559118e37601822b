-- ===== src/Parser/Times.antt =====
-- The readers of internal/core/parser/service/service.go: `parseClock`, `parseWeekday`,
-- `weekStart`, `weekdayOffset` and `matchesWeek`. What lower case a character has is a matter of
-- Unicode's tables, so `strings.ToLower` is a parameter.
pub mod ClockText
pub mod Weeks
use Prim.Native.Char.{Char, code}
use Prim.Native.String
use uban_z.Prelude.{
  ℕ, suc, ◌+◌, ◌-◌, ◌*◌, ◌/◌, ◌%◌, String, Bool, true, false, not, ◌&&◌, ◌||◌, Option, none, some,
  Result, ok, err, ◌==◌, eqb, leb, ltb, trim_space, trim_suffix, has_prefix, contains_text,
  if◌then◌else◌,
}
use uban_z.Clock.{Time, hour, minute}
use uban_z.Booking.Domain.{Error, other}

-- `\d`, and its value.
abbrev pub is_digit : Char → Bool
is_digit c = leb b'0' (code c) && leb (code c) b'9'

abbrev pub digit_value : Char → ℕ
digit_value c = code c - b'0'

-- `[:.]`.
abbrev pub is_separator : Char → Bool
is_separator c = eqb (code c) b':' || eqb (code c) b'.'

abbrev pub two_digits : Char → Char → ℕ
two_digits d e = 10 * digit_value d + digit_value e

-- `[:.](\d{2})` at the head of a text.
unfoldable pub match_minutes : String → Option ℕ
match_minutes (String.◌∷◌ c (String.◌∷◌ d (String.◌∷◌ e s))) =
    if is_separator c && (is_digit d && is_digit e) then some (two_digits d e) else none
match_minutes s = none

abbrev pub with_hour : ℕ → Option ℕ → Option (ℕ × ℕ)
with_hour h none = none
with_hour h (some m) = some (h, m)

abbrev pub first_some {ℓ} : {A : Type ℓ} → Option A → Option A → Option A
first_some none b = b
first_some (some a) b = some a

-- `(\d{1,2})[:.](\d{2})` at the head of a text: two digits are tried before one.
unfoldable pub match_two : Char → String → Option (ℕ × ℕ)
unfolding match_minutes
match_two a String.[] = none
match_two a (String.◌∷◌ b s) =
    if is_digit b then with_hour (two_digits a b) (match_minutes s) else none

unfoldable pub match_clock : String → Option (ℕ × ℕ)
unfolding match_two
match_clock String.[] = none
match_clock (String.◌∷◌ a s) =
    if is_digit a
    then first_some (match_two a s) (with_hour (digit_value a) (match_minutes s))
    else none

-- `FindStringSubmatch`: the leftmost match.
unfoldable pub find_clock : String → Option (ℕ × ℕ)
unfolding match_clock
find_clock String.[] = none
find_clock (String.◌∷◌ c s) = first_some (match_clock (String.◌∷◌ c s)) (find_clock s)

abbrev pub check_clock : Option (ℕ × ℕ) → Result Error (ℕ × ℕ)
check_clock none = err (other "cannot parse lesson start time")
check_clock (some (h, m)) =
    if ltb 23 h || ltb 59 m then err (other "lesson start time out of range") else ok (h, m)

unfoldable pub parse_clock : String → Result Error (ℕ × ℕ)
unfolding find_clock
parse_clock value = check_clock (find_clock value)

-- `time.Weekday`: Sunday is 0.
abbrev pub sunday : ℕ
sunday = 0

abbrev pub monday : ℕ
monday = 1

module _ (to_lower : String → String) where
  abbrev pub normalized_weekday : String → String
  normalized_weekday value = trim_suffix b'.' (to_lower (trim_space value))

  unfoldable pub parse_weekday : String → Option ℕ
  unfolding has_prefix
  parse_weekday value =
      let day = normalized_weekday value in
      if has_prefix day "пн" || has_prefix day "пон"
      then some 1
      else if has_prefix day "вт" || has_prefix day "вто"
      then some 2
      else if has_prefix day "ср" || has_prefix day "сре"
      then some 3
      else if has_prefix day "чт" || has_prefix day "чет"
      then some 4
      else if has_prefix day "пт" || has_prefix day "пят"
      then some 5
      else if has_prefix day "сб" || has_prefix day "суб"
      then some 6
      else if has_prefix day "вс" || has_prefix day "вос"
      then some 0
      else none

-- Days are counted from a Monday, 1 January of the first year of a 400-year cycle that lies before
-- all dates: such a cycle has 146097 days, a multiple of seven.
abbrev pub weekday_of : ℕ → ℕ
weekday_of day = (day + 1) % 7

-- The day of the year, from 0, as the `time` package computes it: centuries, four-year cycles and
-- years, where the last day of a leap cycle stays in its last year.
unfoldable pub year_day : ℕ → ℕ
year_day day =
    let d400 = day % 146097 in
    let centuries = d400 / 36524 - d400 / 36524 / 4 in
    let d100 = d400 - 36524 * centuries in
    let d4 = d100 % 1461 in let years = d4 / 365 - d4 / 365 / 4 in d4 - 365 * years

-- `ISOWeek` of a day: the week of the year that its Thursday lies in.
unfoldable pub iso_week : ℕ → ℕ
unfolding year_day
iso_week day = year_day (day - day % 7 + 3) / 7 + 1

-- A location, as the code uses one: the day and the time of day of an instant, and the instant of a
-- day and a time of day.
pub record Location : Type 0 where
  pub day : Time → ℕ
  pub clock : Time → ℕ
  pub date : ℕ → ℕ → Time

module _ (location : Location) where
  open location use {day, clock, date}

  -- `AddDate(0, 0, n)`, and the same with -n.
  abbrev pub add_days : Time → ℕ → Time
  add_days t n = date (day t + n) (clock t)

  abbrev pub sub_days : Time → ℕ → Time
  sub_days t n = date (day t - n) (clock t)

  -- `int(t.Weekday() - time.Monday)`, with -1 turned into 6.
  abbrev pub monday_offset : ℕ → ℕ
  monday_offset weekday = if ltb weekday monday then 6 else weekday - monday

  unfoldable pub week_start : Time → Time
  week_start t = date (day (sub_days t (monday_offset (weekday_of (day t))))) 0

unfoldable pub weekday_offset : ℕ → ℕ
weekday_offset weekday = if eqb weekday sunday then 6 else weekday - monday

module _ (to_lower : String → String) where
  -- `matchesWeek`, of the day of a date: odd ISO weeks are the numerator's.
  unfoldable pub matches_week : String → ℕ → Bool
  unfolding contains_text iso_week
  matches_week week day =
      let normalized = to_lower (trim_space week) in
      if normalized == ""
      then true
      else if contains_text normalized "числ"
          || (contains_text normalized "нечет" || contains_text normalized "неч")
      then not (eqb (iso_week day % 2) 0)
      else if contains_text normalized "знам" || contains_text normalized "чет"
      then eqb (iso_week day % 2) 0
      else true
