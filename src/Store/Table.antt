-- ===== src/Store/Table.antt =====
-- The tables of migrations/booking and the SQL statements of internal/adapter/booking/postgres
-- (store.go and the query constants of sqlcgen/query.sql.go) as functions on their rows.
-- A BIGSERIAL sequence moves on whether its statement succeeds or not. The order of the rows in a
-- table means nothing: every query that returns several rows sorts them. Rows come with the instants
-- that the database keeps (`timestamptz`).
pub mod Valid
pub mod Insert
pub mod Delete
pub mod Upsert
use Prim.Native.Char.{code}
use Prim.Native.String
use uban_z.Prelude.{
  is_empty, ℕ, suc, ◌+◌, ℤ, pos, magnitude, eqb_ℤ, is_nonpositive, String, Bool, true, false, not,
  ◌&&◌, ◌||◌, List, [], ◌∷◌, any, find, filter, Option, none, some, ◌==◌, Result, ok, err, ltb, leb,
  eqb, if◌then◌else◌,
}
use uban_z.Clock.{Time, before}
use uban_z.Booking.Role.{
  Role, role_student_b, role_student_m, role_student_a, role_teacher, role_admin,
}
use uban_z.Booking.Domain.{Error, pg_error, other}

pub record RoomRow : Type 0 where
  pub id : ℕ
  pub name : String
  pub capacity : ℤ
  pub building : String

pub record BookingRow : Type 0 where
  pub id : ℕ
  pub room_id : ℤ
  pub user_id : ℤ
  pub creator_role : String
  pub start_time : Time
  pub end_time : Time
  pub subject : Option String
  pub lesson_type : Option String
  pub teacher : Option String
  pub group_numbers : List String
  pub week : Option String

pub record Db : Type 0 where
  pub rooms : List RoomRow
  pub bookings : List BookingRow
  pub room_seq : ℕ
  pub booking_seq : ℕ

abbrev pub has_room : ℤ → List RoomRow → Bool
has_room id rooms = any (λ r. eqb_ℤ (pos r.id) id) rooms

-- ORDER BY start_time, id.
abbrev pub row_le : BookingRow → BookingRow → Bool
row_le a b = ltb a.start_time b.start_time || (eqb a.start_time b.start_time && leb a.id b.id)

unfoldable pub insert_sorted : BookingRow → List BookingRow → List BookingRow
insert_sorted a [] = a ∷ []
insert_sorted a (b ∷ bs) = if row_le a b then a ∷ b ∷ bs else b ∷ insert_sorted a bs

unfoldable pub order_by_start : List BookingRow → List BookingRow
unfolding insert_sorted
order_by_start [] = []
order_by_start (a ∷ as') = insert_sorted a (order_by_start as')

-- ORDER BY id.
unfoldable pub insert_room_sorted : RoomRow → List RoomRow → List RoomRow
insert_room_sorted a [] = a ∷ []
insert_room_sorted a (b ∷ bs) = if leb a.id b.id then a ∷ b ∷ bs else b ∷ insert_room_sorted a bs

unfoldable pub order_by_id : List RoomRow → List RoomRow
unfolding insert_room_sorted
order_by_id [] = []
order_by_id (a ∷ as') = insert_room_sorted a (order_by_id as')

-- The statement of `listRooms`.
unfoldable pub select_rooms : Db → List RoomRow
unfolding order_by_id
select_rooms db = order_by_id db.rooms

-- The statement of `getRoomByID`.
unfoldable pub select_room : ℤ → Db → Option RoomRow
select_room id db = find (λ r. eqb_ℤ (pos r.id) id) db.rooms

-- The statement of `ListByRoomID`.
unfoldable pub select_by_room : ℤ → Db → List BookingRow
unfolding order_by_start
select_by_room room_id db = order_by_start (filter (λ b. eqb_ℤ b.room_id room_id) db.bookings)

-- The statement of `ListByUserID`.
unfoldable pub select_by_user : ℤ → Db → List BookingRow
unfolding order_by_start
select_by_user user_id db = order_by_start (filter (λ b. eqb_ℤ b.user_id user_id) db.bookings)

-- The statement of `GetBookingByID`.
unfoldable pub select_booking : ℤ → Db → Option BookingRow
select_booking id db = find (λ b. eqb_ℤ (pos b.id) id) db.bookings

-- WHERE user_id = 0 AND creator_role = 'admin'.
abbrev pub is_parsed : BookingRow → Bool
is_parsed b = eqb_ℤ b.user_id (pos 0) && b.creator_role == role_admin

-- The statement of `HasParsedSchedule`.
unfoldable pub exists_parsed : Db → Bool
exists_parsed db = any is_parsed db.bookings

-- bookings_creator_role_chk.
abbrev pub is_listed_role : String → Bool
is_listed_role r =
    r == role_student_b
    || (r == role_student_m || (r == role_student_a || (r == role_teacher || r == role_admin)))

-- bookings_no_overlap_excl, for two rows whose ranges are not empty.
abbrev pub clashes : BookingRow → BookingRow → Bool
clashes a b =
    eqb_ℤ a.room_id b.room_id && (before a.start_time b.end_time && before b.start_time a.end_time)

abbrev pub pg_code_exclusion_viol : String
pg_code_exclusion_viol = "23P01"

abbrev pub pg_code_check_violation : String
pg_code_check_violation = "23514"

abbrev pub constraint_no_overlap : String
constraint_no_overlap = "bookings_no_overlap_excl"

abbrev pub constraint_time_range : String
constraint_time_range = "bookings_time_range_chk"

-- The constraints of the bookings table that a new row breaks: the checks by name, the exclusion,
-- then the foreign key.
unfoldable pub broken_constraint : BookingRow → Db → Option Error
broken_constraint b db =
    if not (is_listed_role b.creator_role)
    then some (pg_error pg_code_check_violation "bookings_creator_role_chk")
    else if not (before b.start_time b.end_time)
    then some (pg_error pg_code_check_violation constraint_time_range)
    else if any (clashes b) db.bookings
    then some (pg_error pg_code_exclusion_viol constraint_no_overlap)
    else if not (has_room b.room_id db.rooms)
    then some (pg_error "23503" "bookings_room_id_fkey")
    else none

abbrev pub numbered : BookingRow → Db → BookingRow
numbered b db = record b { id = suc db.booking_seq }

-- INSERT INTO bookings ... RETURNING; the row's own id is ignored.
unfoldable pub insert_booking : BookingRow → Db → Result Error BookingRow × Db
insert_booking b db = elim (broken_constraint b db) [
  | some e ↦ (err e, record db { booking_seq = suc db.booking_seq })
  | none ↦ (
    ok (numbered b db),
    record db { bookings = numbered b db ∷ db.bookings; booking_seq = suc db.booking_seq },
  )
]

-- Whether an error is a violation of the exclusion constraint.
abbrev pub is_exclusion : Error → Bool
is_exclusion (pg_error code constraint) = code == pg_code_exclusion_viol
is_exclusion e = false

-- INSERT INTO bookings ... ON CONFLICT DO NOTHING: whether a row was inserted.
unfoldable pub insert_or_skip : BookingRow → Db → Result Error Bool × Db
insert_or_skip b db = elim (broken_constraint b db) [
  | some e ↦
      (if is_exclusion e then ok false else err e, record db { booking_seq = suc db.booking_seq })
  | none ↦ (
    ok true,
    record db { bookings = numbered b db ∷ db.bookings; booking_seq = suc db.booking_seq },
  )
]

module _ {ℓ} {A : Type ℓ} where
  -- How many rows a WHERE clause selects.
  abbrev pub count_rows : (A → Bool) → List A → ℕ
  count_rows test [] = 0
  count_rows test (a ∷ as') = if test a then suc (count_rows test as') else count_rows test as'

-- DELETE FROM bookings WHERE the test holds; the result is the number of rows deleted.
unfoldable pub delete_bookings : (BookingRow → Bool) → Db → ℕ × Db
delete_bookings test db =
    (count_rows test db.bookings, record db { bookings = filter (λ b. not (test b)) db.bookings })

-- INSERT INTO rooms ... ON CONFLICT (building, name) DO UPDATE SET capacity = EXCLUDED.capacity
-- RETURNING id. The capacity is an INT that must be positive.
abbrev pub same_room : String → String → RoomRow → Bool
same_room name building r = r.building == building && r.name == name

unfoldable pub set_capacity : String → String → ℤ → List RoomRow → List RoomRow
set_capacity name building capacity [] = []
set_capacity name building capacity (r ∷ rs) =
    (if same_room name building r then record r { capacity = capacity } else r)
    ∷ set_capacity name building capacity rs

abbrev pub capacity_error : ℤ → Option Error
capacity_error capacity =
    if is_nonpositive capacity
    then some (pg_error pg_code_check_violation "rooms_capacity_check")
    else if leb 0x8000_0000 (magnitude capacity)
    then some (other "capacity is greater than maximum value for int4")
    else none

abbrev pub fresh_room : String → String → ℤ → Db → RoomRow
fresh_room name building capacity db = record {
  id = suc db.room_seq;
  name = name;
  capacity = capacity;
  building = building;
}

unfoldable pub upsert_room : String → String → ℤ → Db → Result Error ℕ × Db
unfolding set_capacity
upsert_room name building capacity db = elim (capacity_error capacity) [
  | some e ↦ (err e, record db { room_seq = suc db.room_seq })
  | none ↦ elim (find (same_room name building) db.rooms) [
    | some r ↦ (
      ok r.id,
      record db {
        rooms = set_capacity name building capacity db.rooms;
        room_seq = suc db.room_seq;
      },
    )
    | none ↦ (
      ok (suc db.room_seq),
      record db {
        rooms = fresh_room name building capacity db ∷ db.rooms;
        room_seq = suc db.room_seq;
      },
    )
  ]
]

abbrev pub ends_with_close : String → Bool
ends_with_close String.[] = false
ends_with_close (String.◌∷◌ c s) = if is_empty s then eqb (code c) b')' else ends_with_close s

-- LIKE '%(%)'.
unfoldable pub like_in_parens : String → Bool
like_in_parens String.[] = false
like_in_parens (String.◌∷◌ c s) = (eqb (code c) b'(' && ends_with_close s) || like_in_parens s

-- The rooms of the first development data, and those that kept the building in their name.
abbrev pub is_stale_name : RoomRow → Bool
is_stale_name r =
    (r.building == "North" && r.name == "A101")
    || ((r.building == "South" && r.name == "B204")
        || ((r.building == "West" && r.name == "C305")
            || (r.building == "НГУ" && like_in_parens r.name)))

abbrev pub is_booked : RoomRow → List BookingRow → Bool
is_booked r bookings = any (λ b. eqb_ℤ b.room_id (pos r.id)) bookings

-- DELETE FROM rooms r WHERE ... AND NOT EXISTS (SELECT 1 FROM bookings b WHERE b.room_id = r.id).
unfoldable pub delete_stale_rooms : Db → Db
unfolding like_in_parens
delete_stale_rooms db = record db {
  rooms = filter (λ r. not (is_stale_name r && not (is_booked r db.bookings))) db.rooms;
}
