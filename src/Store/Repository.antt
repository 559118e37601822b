-- ===== src/Store/Repository.antt =====
-- internal/adapter/booking/postgres/store.go: the repositories of rooms and bookings.
pub mod Safety
pub mod Creation
pub mod Cancellation
pub mod Listing
pub mod Failures
use uban_z.Prelude.{
  ℕ, suc, ℤ, pos, eqb, eqb_ℤ, String, Bool, true, false, List, [], ◌∷◌, ◌++◌, map, Option, none,
  some, ◌==◌, Result, ok, err, M, ◌>>=◌, ◌>>◌, pure, fail, lift, require, if◌then◌else◌, not,
}
use uban_z.Clock.{Time, timestamptz}
use uban_z.Booking.Domain.{
  Room, Booking, Error, room_not_found, booking_not_found, invalid_time_range, schedule_conflict,
  no_rows, pg_error, wrap, errors_is,
}
use uban_z.Booking.Ports.{Event, Ports}
use uban_z.Store.Table.{
  RoomRow, BookingRow, Db, select_rooms, select_room, select_by_room, select_by_user,
  select_booking, exists_parsed, is_parsed, insert_booking, delete_bookings, pg_code_exclusion_viol,
  pg_code_check_violation, constraint_no_overlap, constraint_time_range,
}
use uban_z.Store.World.{World, query, ask, on_error}

abbrev pub to_domain_room : RoomRow → Room
to_domain_room r = record {
  id = pos r.id;
  name = r.name;
  capacity = r.capacity;
  building = r.building;
}

abbrev pub text_or : Option String → String
text_or none = ""
text_or (some s) = s

abbrev pub nullable_text : String → Option String
nullable_text value = if value == "" then none else some value

abbrev pub scan_booking : BookingRow → Booking
scan_booking r = record {
  id = pos r.id;
  room_id = r.room_id;
  user_id = r.user_id;
  creator_role = r.creator_role;
  start_time = r.start_time;
  end_time = r.end_time;
  subject = text_or r.subject;
  lesson_type = text_or r.lesson_type;
  teacher = text_or r.teacher;
  group_numbers = r.group_numbers;
  week = text_or r.week;
}

-- `QueryRow` and `Scan`.
abbrev pub one_row : {A : Type 0} → Option A → Result Error A
one_row none = err no_rows
one_row (some a) = ok a

-- The code and the constraint of a PgError, as `errors.As` finds them.
unfoldable pub translate_pg : Error → Error → Error
translate_pg (wrap p e) default = translate_pg e default
translate_pg (pg_error code constraint) default =
    if code == pg_code_exclusion_viol
    then (if constraint == constraint_no_overlap then schedule_conflict else default)
    else if code == pg_code_check_violation
    then (if constraint == constraint_time_range then invalid_time_range else default)
    else default
translate_pg e default = default

unfoldable pub translate_insert_error : Error → Error
unfolding translate_pg
translate_insert_error e = translate_pg e (wrap "create booking" e)

abbrev not_found_or : Error → String → Error → Error
not_found_or missing operation e = if errors_is e no_rows then missing else wrap operation e

-- The statements as `query` takes them.
abbrev pub room_row : ℤ → Db → Result Error RoomRow
room_row id db = one_row (select_room id db)

abbrev pub booking_row : ℤ → Db → Result Error BookingRow
booking_row id db = one_row (select_booking id db)

abbrev pub rows_by_room : ℤ → Db → Result Error (List BookingRow)
rows_by_room room_id db = ok (select_by_room room_id db)

abbrev pub rows_by_user : ℤ → Db → Result Error (List BookingRow)
rows_by_user user_id db = ok (select_by_user user_id db)

abbrev pub with_id : ℤ → BookingRow → Bool
with_id id b = eqb_ℤ (pos b.id) id

abbrev pub deletion : ℤ → M Db Error ℕ
deletion id db = (ok (delete_bookings (with_id id) db).0, (delete_bookings (with_id id) db).1)

unfoldable pub list : M World Error (List Room)
list = do
  rows ← on_error (wrap "list rooms") (ask (λ db. ok (select_rooms db)))
  pure (map to_domain_room rows)

unfoldable pub get_by_id : ℤ → M World Error Room
get_by_id id = do
  row ← on_error (not_found_or room_not_found "get room by id") (ask (room_row id))
  pure (to_domain_room row)

unfoldable pub list_by_room_id : ℤ → M World Error (List Booking)
list_by_room_id room_id = do
  rows ← on_error (wrap "list bookings by room id") (ask (rows_by_room room_id))
  pure (map scan_booking rows)

unfoldable pub list_by_user_id : ℤ → M World Error (List Booking)
list_by_user_id user_id = do
  rows ← on_error (wrap "list bookings by user id") (ask (rows_by_user user_id))
  pure (map scan_booking rows)

unfoldable pub get_booking_by_id : ℤ → M World Error Booking
get_booking_by_id id = do
  row ← on_error (not_found_or booking_not_found "get booking by id") (ask (booking_row id))
  pure (scan_booking row)

-- The row of `CreateBookingParams`, its instants as the database takes them: the statement names no
-- other column.
abbrev pub booking_params : Booking → BookingRow
booking_params b = record {
  id = 0;
  room_id = b.room_id;
  user_id = b.user_id;
  creator_role = b.creator_role;
  start_time = timestamptz b.start_time;
  end_time = timestamptz b.end_time;
  subject = none;
  lesson_type = none;
  teacher = none;
  group_numbers = [];
  week = none;
}

unfoldable pub create : Booking → M World Error Booking
create booking = do
  row ← on_error translate_insert_error (query (insert_booking (booking_params booking)))
  pure (scan_booking row)

unfoldable pub delete_by_id : ℤ → M World Error (Unit {0})
delete_by_id id = do
  rows ← on_error (wrap "delete booking") (query (deletion id))
  require (not (eqb rows 0)) booking_not_found

unfoldable pub has_parsed_schedule : M World Error Bool
has_parsed_schedule = on_error (wrap "check parsed schedule") (ask (λ db. ok (exists_parsed db)))

-- The broker takes an event, or refuses every one of them.
abbrev pub send : Event → M World Error (Unit {0})
send event w = elim w.broker_error [
  | none ↦ (ok tt, record w { sent = w.sent ++ event ∷ [] })
  | some e ↦ (err e, w)
]

abbrev pub read_clock : World → Time × World
read_clock w = (w.clock, w)

-- The booking service as cmd/booking/main.go puts it together.
abbrev pub store_ports : Ports World
store_ports = record {
  list_rooms = list;
  get_room = get_by_id;
  list_by_room_id = list_by_room_id;
  list_by_user_id = list_by_user_id;
  get_booking = get_booking_by_id;
  create = create;
  delete_by_id = delete_by_id;
  publisher = some send;
  now = read_clock;
}
