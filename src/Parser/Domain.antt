-- ===== src/Parser/Domain.antt =====
-- internal/core/parser/domain/models.go and internal/core/parser/port/parser.go.
use uban_z.Prelude.{ℕ, ℤ, String, List, Option, M}
use uban_z.Clock.{Time}
use uban_z.Booking.Domain.{Error}

pub record RoomSelector : Type 0 where
  pub name : String
  pub building : String
  pub capacity : ℤ
  pub full_url : String

pub record LessonRoom : Type 0 where
  pub subject : String
  pub lesson_type : String
  pub teacher : String
  pub start_time : String
  pub weekday : String
  pub room : String
  pub week : String
  pub group_numbers : List String

pub record ScheduleSlot : Type 0 where
  pub room_name : String
  pub building : String
  pub capacity : ℤ
  pub subject : String
  pub lesson_type : String
  pub teacher : String
  pub group_numbers : List String
  pub week : String
  pub start_time : Time
  pub end_time : Time

-- Counts of things that were seen never fall below zero.
pub record ImportStats : Type 0 where
  pub rooms_seen : ℕ
  pub rooms_imported : ℕ
  pub lessons_seen : ℕ
  pub lessons_expanded : ℕ
  pub lessons_imported : ℕ
  pub lessons_skipped : ℕ

abbrev pub no_stats : ImportStats
no_stats = record {
  rooms_seen = 0;
  rooms_imported = 0;
  lessons_seen = 0;
  lessons_expanded = 0;
  lessons_imported = 0;
  lessons_skipped = 0;
}

-- What the import acts on: the source of the timetable, the repository, and its context, whose
-- `Err` is `none` until the context is cancelled.
pub record Ports (S : Type 0) : Type 0 where
  pub ctx_err : S → Option Error × S
  pub parse_rooms : M S Error (List RoomSelector)
  pub parse_lessons_room : String → M S Error (List LessonRoom)
  pub replace_parsed_schedule : List RoomSelector → List ScheduleSlot → M S Error ImportStats
