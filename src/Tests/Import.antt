-- ===== src/Tests/Import.antt =====
-- Imports over the tables.
use uban_z.Prelude.{◌+◌, pos, length, List, [], ◌∷◌, Option, none, some, ◌≡◌, refl, ok, err}
use uban_z.Booking.Domain.{Error, canceled, wrap}
use uban_z.Parser.Domain.{RoomSelector, ScheduleSlot, ImportStats}
use uban_z.Store.Table.{Db}
use uban_z.Store.Table.Valid.{IsValid}
use uban_z.Store.World.{World, quiet}
use uban_z.Store.Import.{replace_parsed_schedule}
use uban_z.Store.Import.Replacement.{
  unparsed, with_tx_faults, replace_parsed_schedule-Keeps, replace_parsed_schedule-unparsed,
}
use uban_z.Store.Import.Counts.{parsed_rows, replace_parsed_schedule-counts}
use uban_z.Tests.Data.{lecture, tables-IsValid, world, busy_world}

abbrev selectors : List RoomSelector
selectors =
    record { name = "3307"; building = "НГУ"; capacity = pos 40; full_url = "/room/3307" } ∷ []

abbrev seminar : ScheduleSlot
seminar = record {
  room_name = "3307";
  building = "НГУ";
  capacity = pos 40;
  subject = "Algebra";
  lesson_type = "";
  teacher = "";
  group_numbers = "23201" ∷ [];
  week = "";
  start_time = 5000000;
  end_time = 6000000;
}

-- The second slot meets the lecture.
abbrev slots : List ScheduleSlot
slots = seminar ∷ record seminar { start_time = 1500000; end_time = 1700000 } ∷ []

replace_parsed_schedule-Keeps_example :
    IsValid (replace_parsed_schedule selectors slots busy_world).1.db
replace_parsed_schedule-Keeps_example =
    replace_parsed_schedule-Keeps selectors slots busy_world tables-IsValid

abbrev third_fails : List (Option Error)
third_fails = none ∷ none ∷ some canceled ∷ []

replace_parsed_schedule-unparsed_example :
    unparsed
      (replace_parsed_schedule selectors slots (with_tx_faults third_fails world)).1.db.bookings
    ≡ unparsed (lecture ∷ [])
replace_parsed_schedule-unparsed_example =
    replace_parsed_schedule-unparsed selectors slots third_fails world tables-IsValid

abbrev failed_world : World
failed_world = (replace_parsed_schedule selectors slots (with_tx_faults third_fails world)).1

fails :
    replace_parsed_schedule selectors slots (with_tx_faults third_fails world)
    ≡ (err (wrap "upsert parsed room" canceled), failed_world)
unfolding replace_parsed_schedule uban_z.Store.World.begin_func uban_z.Store.World.query
    uban_z.Store.World.transact uban_z.Store.Import.replace_body uban_z.Store.World.exec
    uban_z.Store.Import.import_rooms uban_z.Store.Import.upsert_parsed_room
fails = refl

abbrev imported_world : World
imported_world = (replace_parsed_schedule selectors slots (with_tx_faults [] world)).1

abbrev stats : ImportStats
stats = record {
  rooms_seen = 1;
  rooms_imported = 1;
  lessons_seen = 0;
  lessons_expanded = 2;
  lessons_imported = 1;
  lessons_skipped = 1;
}

succeeds :
    replace_parsed_schedule selectors slots (with_tx_faults [] world) ≡ (ok stats, imported_world)
unfolding uban_z.Clock.timestamptz replace_parsed_schedule uban_z.Store.World.begin_func
    uban_z.Store.World.query uban_z.Store.World.transact uban_z.Store.Import.replace_body
    uban_z.Store.World.exec uban_z.Store.Import.import_rooms uban_z.Store.Import.upsert_parsed_room
    uban_z.Store.Table.upsert_room uban_z.Parser.RoomName.normalize_parsed_room
    uban_z.Store.Table.delete_stale_rooms uban_z.Store.Table.delete_bookings
    uban_z.Store.World.run_others uban_z.Store.Import.import_slots uban_z.Store.Import.lookup_room
    uban_z.Store.Table.insert_or_skip uban_z.Store.Table.broken_constraint
succeeds = refl

replace_parsed_schedule-counts_example :
    (1 + 1 ≡ length slots)
    × (parsed_rows imported_world.db ≡ 1)
    × (1 ≡ length selectors)
    × (2 ≡ length slots)
replace_parsed_schedule-counts_example =
    replace_parsed_schedule-counts selectors slots [] world imported_world stats succeeds
