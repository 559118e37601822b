-- ===== src/Store/Import.antt =====
-- internal/adapter/booking/postgres/store.go: `ReplaceParsedSchedule`.
pub mod Effects
pub mod Replacement
pub mod Counts
use Prim.Native.String
use uban_z.Prelude.{
  ℕ, suc, ◌+◌, ℤ, pos, String, Bool, true, false, List, [], ◌∷◌, length, Option, none, some, ◌==◌,
  Result, ok, err, M, ◌>>=◌, ◌>>◌, pure, if◌then◌else◌,
}
use uban_z.Clock.{timestamptz}
use uban_z.Booking.Role.{role_admin}
use uban_z.Booking.Domain.{Error, wrap}
use uban_z.Parser.Domain.{RoomSelector, ScheduleSlot, ImportStats, no_stats}
use uban_z.Parser.RoomName.{normalize_parsed_room}
use uban_z.Store.Table.{
  BookingRow, Db, is_parsed, delete_bookings, delete_stale_rooms, upsert_room, insert_or_skip,
}
use uban_z.Store.World.{World, Tx, exec, transact, begin_func, map_error}
use uban_z.Store.Repository.{nullable_text, translate_insert_error}

abbrev pub room_key : String → String → String
room_key building name = String.◌++◌ building (String.◌++◌ "\0" name)

-- `roomIDs`: the last entry of a key stands first.
abbrev pub RoomIds : Type 0
RoomIds = List (String × ℕ)

unfoldable pub lookup_room : String → RoomIds → Option ℕ
lookup_room key [] = none
lookup_room key ((k, id) ∷ ids) = if k == key then some id else lookup_room key ids

-- `if err != nil { return f(err) }` inside the transaction.
abbrev pub on_tx_error : {A : Type 0} → (Error → Error) → M Tx Error A → M Tx Error A
on_tx_error f m t = (map_error f (m t).0, (m t).1)

unfoldable pub upsert_parsed_room : String → String → ℤ → M Tx Error ℕ
upsert_parsed_room name building capacity =
    on_tx_error (wrap "upsert parsed room") (exec (upsert_room name building capacity))

-- The row of a slot, its instants as the database takes them.
abbrev pub slot_row : ℕ → ScheduleSlot → BookingRow
slot_row room_id slot = record {
  id = 0;
  room_id = pos room_id;
  user_id = pos 0;
  creator_role = role_admin;
  start_time = timestamptz slot.start_time;
  end_time = timestamptz slot.end_time;
  subject = nullable_text slot.subject;
  lesson_type = nullable_text slot.lesson_type;
  teacher = nullable_text slot.teacher;
  group_numbers = slot.group_numbers;
  week = nullable_text slot.week;
}

abbrev pub one_room_more : ImportStats → ImportStats
one_room_more stats = record stats { rooms_imported = stats.rooms_imported + 1 }

-- `RowsAffected() == 0` counts a slot as skipped.
abbrev pub count_slot : Bool → ImportStats → ImportStats
count_slot true stats = record stats { lessons_imported = stats.lessons_imported + 1 }
count_slot false stats = record stats { lessons_skipped = stats.lessons_skipped + 1 }

-- The first loop.
unfoldable pub import_rooms :
    List RoomSelector → RoomIds → ImportStats → M Tx Error (RoomIds × ImportStats)
import_rooms [] ids stats = pure (ids, stats)
import_rooms (room ∷ rooms) ids stats = do
  let n = normalize_parsed_room room.name room.building room.capacity
  id ← upsert_parsed_room n.0 n.1 n.2
  import_rooms rooms ((room_key n.1 n.0, id) ∷ ids) (one_room_more stats)

abbrev pub room_of_slot :
    Option ℕ → String × String × ℤ → RoomIds → ImportStats → M Tx Error (ℕ × RoomIds × ImportStats)
room_of_slot (some id) n ids stats = pure (id, ids, stats)
room_of_slot none n ids stats = do
  id ← upsert_parsed_room n.0 n.1 n.2
  pure (id, (room_key n.1 n.0, id) ∷ ids, one_room_more stats)

-- The second loop.
unfoldable pub import_slots : List ScheduleSlot → RoomIds → ImportStats → M Tx Error ImportStats
import_slots [] ids stats = pure stats
import_slots (slot ∷ slots) ids stats = do
  let n = normalize_parsed_room slot.room_name slot.building slot.capacity
  found ← room_of_slot (lookup_room (room_key n.1 n.0) ids) n ids stats
  inserted ← on_tx_error translate_insert_error (exec (insert_or_skip (slot_row found.0 slot)))
  import_slots slots found.1 (count_slot inserted found.2)

abbrev pub start_stats : List RoomSelector → List ScheduleSlot → ImportStats
start_stats rooms slots = record no_stats {
  rooms_seen = length rooms;
  lessons_expanded = length slots;
}

abbrev pub delete_parsed : M Db Error (Unit {0})
delete_parsed db = (ok tt, (delete_bookings is_parsed db).1)

abbrev pub delete_stale : M Db Error (Unit {0})
delete_stale db = (ok tt, delete_stale_rooms db)

unfoldable pub replace_body : List RoomSelector → List ScheduleSlot → M Tx Error ImportStats
replace_body rooms slots = do
  on_tx_error (wrap "delete previous parser rows") (exec delete_parsed)
  on_tx_error (wrap "delete stale parser rooms") (exec delete_stale)
  found ← import_rooms rooms [] (start_stats rooms slots)
  import_slots slots found.0 found.1

unfoldable pub replace_parsed_schedule :
    List RoomSelector → List ScheduleSlot → M World Error ImportStats
replace_parsed_schedule rooms slots = begin_func (replace_body rooms slots)
