-- ===== src/Store/Repository/Safety.antt =====
-- The tables stay valid whatever the use cases and PostgreSQL do.
use uban_z.Prelude.{ℤ, List, [], ◌∷◌, Option, none, some, arith, Result, M}
use uban_z.Booking.Domain.{Error, Booking}
use uban_z.Booking.Service.{Caller, CreateBookingInput, create_booking, cancel_booking, publish}
use uban_z.Booking.Ports.{Event}
use uban_z.Store.Table.{is_parsed, Db, insert_booking}
use uban_z.Store.Table.Valid.{IsValid}
use uban_z.Store.Table.Insert.{insert_booking-IsValid}
use uban_z.Store.Table.Delete.{delete_bookings-IsValid, delete_stale_rooms-IsValid}
use uban_z.Store.Table.Upsert.{upsert_room-IsValid}
use uban_z.Store.World.{
  World, Turn, Statement, inserts, deletes, deletes_parsed, deletes_stale_rooms, upserts, Fault,
  refused, reply_lost, query, faulty, ask, run_statement, run_others, take_turn,
}
use uban_z.Store.Repository.{
  room_row, rows_by_room, booking_row, booking_params, deletion, create, delete_by_id, store_ports,
  get_by_id, list_by_room_id, get_booking_by_id,
}

pub run_statement-IsValid : (s : Statement) (db : Db) → IsValid db → IsValid (run_statement s db)
unfolding run_statement
run_statement-IsValid (inserts b) db v = insert_booking-IsValid b db v
run_statement-IsValid (deletes id) db v = delete_bookings-IsValid _ db v
run_statement-IsValid deletes_parsed db v = delete_bookings-IsValid is_parsed db v
run_statement-IsValid deletes_stale_rooms db v = delete_stale_rooms-IsValid db v
run_statement-IsValid (upserts name building capacity) db v =
    upsert_room-IsValid name building capacity db v

pub run_others-IsValid : (ss : List Statement) (db : Db) → IsValid db → IsValid (run_others ss db)
unfolding run_others
run_others-IsValid [] db v = v
run_others-IsValid (s ∷ ss) db v =
    run_others-IsValid ss (run_statement s db) (run_statement-IsValid s db v)

-- A call that leaves valid tables valid, on success and on failure.
abbrev pub Keeps : {A : Type 0} → M World Error A → Type 0
Keeps m = (w : World) → IsValid w.db → IsValid (m w).1.db

module _ {A : Type 0} (m : M Db Error A) (h : (d : Db) → IsValid d → IsValid (m d).1) where
  faulty-IsValid : (f : Option Fault) (db : Db) → IsValid db → IsValid (faulty f m db).1
  faulty-IsValid none db v = h db v
  faulty-IsValid (some (refused e)) db v = v
  faulty-IsValid (some (reply_lost e)) db v = h db v

  take_turn-IsValid : (ts : List Turn) (w : World) → IsValid w.db → IsValid (take_turn ts m w).1.db
  take_turn-IsValid [] w v = h w.db v
  take_turn-IsValid (t ∷ ts) w v = faulty-IsValid t.fault _ (run_others-IsValid t.others w.db v)

  pub query-Keeps : Keeps (query m)
  unfolding query
  query-Keeps w v = take_turn-IsValid w.plan w v

pub ask-Keeps : {A : Type 0} (read : Db → Result Error A) → Keeps (ask read)
ask-Keeps read = query-Keeps (λ db. (read db, db)) (λ d v. v)

pub get_by_id-Keeps : (id : ℤ) → Keeps (get_by_id id)
unfolding get_by_id
get_by_id-Keeps id w v = ground (arith, ask-Keeps (room_row id) w v)

pub list_by_room_id-Keeps : (id : ℤ) → Keeps (list_by_room_id id)
unfolding list_by_room_id
list_by_room_id-Keeps id w v = ground (arith, ask-Keeps (rows_by_room id) w v)

pub get_booking_by_id-Keeps : (id : ℤ) → Keeps (get_booking_by_id id)
unfolding get_booking_by_id
get_booking_by_id-Keeps id w v = ground (arith, ask-Keeps (booking_row id) w v)

pub create-Keeps : (b : Booking) → Keeps (create b)
unfolding create
create-Keeps b w v = ground (
  arith,
  query-Keeps (insert_booking (booking_params b))
      (λ d v. insert_booking-IsValid (booking_params b) d v) w v,
)

pub delete_by_id-Keeps : (id : ℤ) → Keeps (delete_by_id id)
unfolding delete_by_id
delete_by_id-Keeps id w v =
    ground (arith, query-Keeps (deletion id) (λ d v. delete_bookings-IsValid _ d v) w v)

publish-Keeps : (event : Event) → Keeps (publish store_ports event)
unfolding publish
publish-Keeps event w v = ground arith

-- From tables that satisfy every constraint, `CreateBooking` leaves tables that satisfy them, on
-- success and on failure, whatever other clients' statements run between its own and whichever of
-- its statements fails or loses its reply: no two bookings of a room overlap.
pub create_booking-Keeps : (input : CreateBookingInput) → Keeps (create_booking store_ports input)
unfolding create_booking
create_booking-Keeps input w v =
    grind (arith, get_by_id-Keeps, list_by_room_id-Keeps, create-Keeps, publish-Keeps)

-- From tables that satisfy every constraint, `CancelBooking` leaves tables that satisfy them, on
-- success and on failure, whatever other clients' statements run between its own and whichever of
-- its statements fails or loses its reply.
pub cancel_booking-Keeps : (id : ℤ) (caller : Caller) → Keeps (cancel_booking store_ports id caller)
unfolding cancel_booking
cancel_booking-Keeps id caller w v =
    grind (arith, get_booking_by_id-Keeps, delete_by_id-Keeps, publish-Keeps)
