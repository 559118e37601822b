-- ===== src/Parser/Service.antt =====
-- internal/core/parser/service/service.go: from the lessons of a timetable to dated slots. `S` stands for
-- the source, the repository, the context and the clock.
pub mod Slots
pub mod Runs
use uban_z.Prelude.{
  ℕ, zero, suc, ◌+◌, ◌*◌, ℤ, pos, is_nonpositive, magnitude, String, Bool, true, false, not, List,
  [], ◌∷◌, ◌++◌, map, length, Option, none, some, ◌==◌, Result, ok, err, M, ◌>>=◌, ◌>>◌, pure, lift,
  require, trim_space, if◌then◌else◌,
}
use uban_z.Clock.{Time, hour, minute}
use uban_z.Booking.Domain.{Error, other, wrap}
use uban_z.Parser.Domain.{RoomSelector, LessonRoom, ScheduleSlot, ImportStats, Ports, no_stats}
use uban_z.Parser.RoomName.{normalize_room}
use uban_z.Parser.Times.{
  Location, parse_clock, parse_weekday, week_start, weekday_offset, matches_week, add_days,
}

abbrev pub default_lesson_duration : ℕ
default_lesson_duration = 95 * minute

pub record Config : Type 0 where
  pub weeks_ahead : ℤ
  pub default_building : String
  pub default_capacity : ℤ
  pub location : Location

-- The location as the caller of `New` may leave it out.
pub record RawConfig : Type 0 where
  pub weeks_ahead : ℤ
  pub default_building : String
  pub default_capacity : ℤ
  pub location : Option Location

abbrev pub location_or : Location → Option Location → Location
location_or local none = local
location_or local (some l) = l

-- `New`: whether there is a source and a repository, and `time.Local`.
unfoldable pub new : Bool → Bool → Location → RawConfig → Result Error Config
new has_source has_repo local cfg =
    if not has_source
    then err (other "parser source is required")
    else if not has_repo
    then err (other "schedule repository is required")
    else if is_nonpositive cfg.weeks_ahead
    then err (other "weeks ahead must be positive")
    else if is_nonpositive cfg.default_capacity
    then err (other "default capacity must be positive")
    else if trim_space cfg.default_building == ""
    then err (other "default building is required")
    else ok (record {
      weeks_ahead = cfg.weeks_ahead;
      default_building = cfg.default_building;
      default_capacity = cfg.default_capacity;
      location = location_or local cfg.location;
    })

-- The slot of a lesson on a day.
abbrev pub slot_on : Config → RoomSelector → LessonRoom → ℕ × ℕ → ℕ → ScheduleSlot
slot_on cfg room lesson clock day = record {
  room_name = (normalize_room room.name cfg.default_building).0;
  building = (normalize_room room.name cfg.default_building).1;
  capacity = cfg.default_capacity;
  subject = lesson.subject;
  lesson_type = lesson.lesson_type;
  teacher = lesson.teacher;
  group_numbers = lesson.group_numbers;
  week = lesson.week;
  start_time = cfg.location.date day (clock.0 * hour + clock.1 * minute);
  end_time = cfg.location.date day (clock.0 * hour + clock.1 * minute) + default_lesson_duration;
}

-- The day of a weekday in a week that is counted from a Monday.
abbrev pub lesson_day : Config → Time → ℕ → ℕ → ℕ
lesson_day cfg monday weekday week =
    cfg.location.day (add_days cfg.location monday (week * 7 + weekday_offset weekday))

module _ (to_lower : String → String) (cfg : Config) (room : RoomSelector)
    (lesson : LessonRoom) where
  -- The loop of `expand`, with the rounds left and the next week.
  unfoldable pub expand_weeks : Time → ℕ → ℕ × ℕ → ℕ → ℕ → List ScheduleSlot
  expand_weeks monday weekday clock zero week = []
  expand_weeks monday weekday clock (suc rounds) week =
      let rest = expand_weeks monday weekday clock rounds (suc week) in
      let day = lesson_day cfg monday weekday week in
      if matches_week to_lower lesson.week day
      then slot_on cfg room lesson clock day ∷ rest
      else rest

abbrev pub rounds_of : ℤ → ℕ
rounds_of weeks = if is_nonpositive weeks then 0 else magnitude weeks

abbrev pub known_weekday : Option ℕ → Result Error ℕ
known_weekday none = err (other "unknown weekday")
known_weekday (some d) = ok d

pub record Collected : Type 0 where
  pub slots : List ScheduleSlot
  pub lessons_seen : ℕ
  pub lessons_expanded : ℕ

abbrev pub nothing : Collected
nothing = record { slots = []; lessons_seen = 0; lessons_expanded = 0 }

abbrev pub collect_slots : Collected → List ScheduleSlot → Collected
collect_slots acc expanded = record acc {
  slots = acc.slots ++ expanded;
  lessons_expanded = acc.lessons_expanded + length expanded;
}

abbrev pub normalized : Config → RoomSelector → RoomSelector
normalized cfg room = record {
  name = (normalize_room room.name cfg.default_building).0;
  building = (normalize_room room.name cfg.default_building).1;
  capacity = cfg.default_capacity;
  full_url = room.full_url;
}

abbrev pub wrapping : {S A : Type 0} → String → M S Error A → M S Error A
wrapping prefix m s = elim (m s).0 [
  | ok a ↦ (ok a, (m s).1)
  | err e ↦ (err (wrap prefix e), (m s).1)
]

module _ {S : Type 0} (to_lower : String → String) (now : S → Time × S) (p : Ports S)
    (cfg : Config) where
  unfoldable pub expand : RoomSelector → LessonRoom → M S Error (List ScheduleSlot)
  expand room lesson = do
    clock ← lift (parse_clock lesson.start_time)
    weekday ← lift (known_weekday (parse_weekday to_lower lesson.weekday))
    t ← λ s. (ok (now s).0, (now s).1)
    pure (
        expand_weeks to_lower cfg room lesson (week_start cfg.location t) weekday clock
          (rounds_of cfg.weeks_ahead) 0)

  abbrev pub check_ctx : M S Error (Unit {0})
  check_ctx s = elim (p.ctx_err s).0 [
    | none ↦ (ok tt, (p.ctx_err s).1)
    | some e ↦ (err e, (p.ctx_err s).1)
  ]

  unfoldable pub collect_lessons : RoomSelector → List LessonRoom → Collected → M S Error Collected
  collect_lessons room [] acc = pure acc
  collect_lessons room (lesson ∷ lessons) acc = do
    check_ctx
    expanded ← wrapping "expand lesson" (expand room lesson)
    collect_lessons room lessons (collect_slots acc expanded)

  unfoldable pub collect_rooms : List RoomSelector → Collected → M S Error Collected
  collect_rooms [] acc = pure acc
  collect_rooms (room ∷ rooms) acc = do
    check_ctx
    lessons ← wrapping "parse room" (p.parse_lessons_room room.full_url)
    acc' ←
        collect_lessons room lessons
          (record acc { lessons_seen = acc.lessons_seen + length lessons })
    collect_rooms rooms acc'

  unfoldable pub run : M S Error ImportStats
  run = do
    check_ctx
    rooms ← wrapping "parse rooms" p.parse_rooms
    collected ← collect_rooms rooms nothing
    check_ctx
    stats ←
        wrapping "replace parsed schedule"
          (p.replace_parsed_schedule (map (normalized cfg) rooms) collected.slots)
    pure (record stats {
      rooms_seen = length rooms;
      lessons_seen = collected.lessons_seen;
      lessons_expanded = collected.lessons_expanded;
    })
