-- ===== src/Tests/Parser.antt =====
-- A timetable with one lesson in UTC.
use uban_z.Prelude.{
  ℕ, true, ◌*◌, ◌+◌, ◌/◌, ◌%◌, ◌<◌, pos, negsuc, String, List, [], ◌∷◌, Option, none, some, ◌≡◌,
  ◌≢◌, ◌⊎◌, refl, ok, arith, length,
}
use uban_z.Clock.{Time}
use uban_z.Parser.Domain.{RoomSelector, LessonRoom, ScheduleSlot, ImportStats, Ports, no_stats}
use uban_z.Parser.RoomName.{normalize_room, normalize_parsed_room}
use uban_z.Parser.RoomName.Agreement.{normalize_parsed_room-normalize_room}
use uban_z.Parser.Service.{Config, expand, expand_weeks, slot_on, lesson_day, run}
use uban_z.Parser.Service.Slots.{IsExpansion, expand-IsExpansion}
use uban_z.Parser.Times.{Location, iso_week, matches_week, parse_clock, week_start}
use uban_z.Parser.Times.Weeks.{IsRegular}

abbrev day_length : ℕ
day_length = 86_400_000_000_000

abbrev utc : Location
utc = record {
  day = λ t. t / day_length;
  clock = λ t. t % day_length;
  date = λ d c. d * day_length + c;
}

utc-IsRegular : IsRegular utc
utc-IsRegular = record {
  clock_lt = λ t. omega arith;
  day_date = λ d c h. omega arith;
  clock_date = λ d c h. omega arith;
}

abbrev same_text : String → String
same_text s = s

abbrev config : Config
config = record {
  weeks_ahead = pos 2;
  default_building = "НГУ";
  default_capacity = pos 30;
  location = utc;
}

abbrev room : RoomSelector
room = record { name = "3307 (New)"; building = ""; capacity = pos 0; full_url = "/room/3307" }

abbrev lesson : LessonRoom
lesson = record {
  subject = "Algebra";
  lesson_type = "";
  teacher = "";
  start_time = "9:00";
  weekday = "пн";
  room = "3307";
  week = "";
  group_numbers = [];
}

-- The clock shows a Wednesday.
abbrev wednesday : ℕ → Time × ℕ
wednesday s = (9 * day_length, s)

abbrev source : Ports ℕ
source = record {
  ctx_err = λ s. (none, s);
  parse_rooms = λ s. (ok (room ∷ []), s);
  parse_lessons_room = λ url s. (ok (lesson ∷ []), s);
  replace_parsed_schedule =
      λ rooms slots s. (ok (record no_stats { lessons_imported = length slots }), s + 1);
}

abbrev slots : List ScheduleSlot
slots = expand_weeks same_text config room lesson (week_start utc (9 * day_length)) 1 (9, 0) 2 0

expanded : expand same_text wednesday source config room lesson 0 ≡ (ok slots, 0)
unfolding expand parse_clock uban_z.Parser.Times.parse_weekday uban_z.Prelude.trim_suffix
    uban_z.Prelude.trim_space uban_z.Prelude.is_space
expanded = refl

expand-IsExpansion_example : IsExpansion same_text config (9 * day_length) lesson slots
expand-IsExpansion_example =
    expand-IsExpansion same_text wednesday source config utc-IsRegular room lesson 0 0 slots
      expanded

abbrev stats : ImportStats
stats = record no_stats {
  rooms_seen = 1;
  lessons_seen = 1;
  lessons_expanded = 2;
  lessons_imported = 2;
}

ran : run same_text wednesday source config 0 ≡ (ok stats, 1)
unfolding run uban_z.Parser.Service.collect_rooms uban_z.Parser.Service.collect_lessons expand
    parse_clock uban_z.Parser.Times.parse_weekday uban_z.Prelude.trim_suffix
    uban_z.Prelude.trim_space uban_z.Prelude.is_space expand_weeks matches_week
ran = refl

normalize_parsed_room-normalize_room_example :
    normalize_parsed_room
      (normalize_room "3307 (New)" "НГУ").0
      (normalize_room "3307 (New)" "НГУ").1
      (pos 30)
    ≡ ((normalize_room "3307 (New)" "НГУ").0, (normalize_room "3307 (New)" "НГУ").1, pos 30)
normalize_parsed_room-normalize_room_example =
    normalize_parsed_room-normalize_room "3307 (New)" "НГУ" (pos 30) (cc) refl

read_clock : parse_clock "9:05" ≡ ok (9, 5)
unfolding parse_clock
read_clock = refl
