-- ===== src/Store/Repository/Creation.antt =====
-- What `CreateBooking` answers and stores over a quiet database.
use uban_z.Prelude.{
  ◌++◌, Option-cases, ℤ, suc, pos, eqb_ℤ, eqb_ℤ_iff, Bool, true, false, not, ◌||◌, ◌&&◌, List, [],
  ◌∷◌, any, map, find, filter, Option, none, some, ◌≡◌, ◌∙◌, refl, ap, arith, Result, ok, err,
  if◌then◌else◌, Bool-cases, inl, inr, ◌⊎◌,
}
use uban_z.Clock.{before, timestamptz}
use uban_z.Booking.Ports.{Event}
use uban_z.Booking.Role.{is_known}
use uban_z.Booking.Domain.{
  Room, Error, Booking, forbidden, invalid_time_range, room_not_found, schedule_conflict,
  validate_time_range, errors_is,
}
use uban_z.Booking.Service.{
  created_event, CreateBookingInput, create_booking, publish, draft, conflicts, overlaps,
}
use uban_z.Store.Table.{
  BookingRow, RoomRow, Db, has_room, clashes, insert_sorted, order_by_start, select_by_room,
  select_room, insert_booking, broken_constraint, numbered,
}
use uban_z.Store.Table.Insert.{is_listed_role-is_known}
use uban_z.Store.World.{World, query, quiet}
use uban_z.Store.Repository.{
  translate_insert_error, to_domain_room, scan_booking, booking_params, store_ports, get_by_id,
  list_by_room_id, create,
}

module _ (p : BookingRow → Bool) where
  any-insert_sorted :
      (a : BookingRow) (bs : List BookingRow) → any p (insert_sorted a bs) ≡ (p a || any p bs)
  unfolding insert_sorted
  any-insert_sorted a [] = refl
  any-insert_sorted a (b ∷ bs) = ground (arith, any-insert_sorted a bs)

  -- Sorting neither adds nor loses a row.
  pub any-order_by_start : (bs : List BookingRow) → any p (order_by_start bs) ≡ any p bs
  unfolding order_by_start
  any-order_by_start [] = refl
  any-order_by_start (b ∷ bs) =
      any-insert_sorted b (order_by_start bs) ∙ ap (λ (t : Bool). p b || t) (any-order_by_start bs)

any-filter :
    (p q r : BookingRow → Bool)
    → ((b : BookingRow) → (q b && p b) ≡ r b)
    → (bs : List BookingRow) → any p (filter q bs) ≡ any r bs
any-filter p q r h [] = refl
any-filter p q r h (b ∷ bs) = ground (arith, h b, any-filter p q r h bs)

conflicts-map :
    (input : CreateBookingInput) (rows : List BookingRow)
    → conflicts input (map scan_booking rows)
      ≡ any (λ b. overlaps input.start_time input.end_time b.start_time b.end_time) rows
conflicts-map input [] = refl
conflicts-map input (b ∷ bs) = ground (arith, conflicts-map input bs)

eqb_ℤ_comm : (a b : ℤ) → eqb_ℤ a b ≡ eqb_ℤ b a
eqb_ℤ_comm a b = ground (arith, eqb_ℤ_iff a b, eqb_ℤ_iff b a)

-- Whether a booking is in the room of a request, and shares time with it.
abbrev pub meets : CreateBookingInput → BookingRow → Bool
meets input b =
    eqb_ℤ input.room_id b.room_id
    && (before input.start_time b.end_time && before b.start_time input.end_time)

conflicts-meets :
    (input : CreateBookingInput) (db : Db)
    → conflicts input (map scan_booking (select_by_room input.room_id db))
      ≡ any (meets input) db.bookings
unfolding select_by_room overlaps
conflicts-meets input db =
    conflicts-map input (order_by_start (filter (λ b. eqb_ℤ b.room_id input.room_id) db.bookings))
    ∙ any-order_by_start _ (filter (λ b. eqb_ℤ b.room_id input.room_id) db.bookings)
    ∙ any-filter _ _ (meets input)
        (λ b.
          ap
            (λ (t : Bool).
              t && (before input.start_time b.end_time && before b.start_time input.end_time))
            (eqb_ℤ_comm b.room_id input.room_id))
        db.bookings

abbrev Found : (RoomRow → Bool) → List RoomRow → Type 0
Found p rs =
    ((any p rs ≡ false) × (find p rs ≡ none))
    ⊎ ((any p rs ≡ true) × ((r : RoomRow) × (find p rs ≡ some r)))

find-Found : (p : RoomRow → Bool) (rs : List RoomRow) → Found p rs
find-Found p [] = inl (refl, refl)
find-Found p (r ∷ rs) = elim (Bool-cases (p r)) [
  | inl e ↦ rw e (inr (refl, (r, refl)))
  | inr e ↦ rw e (find-Found p rs)
]

pub get_by_id-quiet :
    (id : ℤ) (w : World)
    → ((has_room id w.db.rooms ≡ false) × (get_by_id id (quiet w) ≡ (err room_not_found, quiet w)))
      ⊎ ((has_room id w.db.rooms ≡ true)
          × ((r : Room) × (get_by_id id (quiet w) ≡ (ok r, quiet w))))
unfolding get_by_id query select_room errors_is
get_by_id-quiet id w = elim (find-Found (λ r. eqb_ℤ (pos r.id) id) w.db.rooms) [
  | inl (e, f) ↦ inl (e, rw f)
  | inr (e, (r, f)) ↦ inr (e, (to_domain_room r, rw f))
]

pub list_by_room_id-quiet :
    (id : ℤ) (w : World)
    → list_by_room_id id (quiet w) ≡ (ok (map scan_booking (select_by_room id w.db)), quiet w)
unfolding list_by_room_id query
list_by_room_id-quiet id w = refl

-- The error that a request meets, told from the tables alone.
abbrev pub creation_error : CreateBookingInput → Db → Option Error
creation_error input db =
    if not (is_known input.caller.role)
    then some forbidden
    else if not (before input.start_time input.end_time)
    then some invalid_time_range
    else if not (has_room input.room_id db.rooms)
    then some room_not_found
    else if any (meets input) db.bookings
    then some schedule_conflict
    else none

-- The error of the row itself, whose instants are cut to microseconds: its range may be empty then.
abbrev pub insertion_error : CreateBookingInput → Db → Option Error
insertion_error input db =
    if not (before (timestamptz input.start_time) (timestamptz input.end_time))
    then some invalid_time_range
    else if any (clashes (booking_params (draft input))) db.bookings
    then some schedule_conflict
    else none

abbrev pub after_insert : BookingRow → Db → Db
after_insert b db = record db {
  bookings = numbered b db ∷ db.bookings;
  booking_seq = suc db.booking_seq;
}

-- A request that meets no error breaks no constraint.
broken_constraint_of_creation_error :
    (input : CreateBookingInput) (db : Db)
    → creation_error input db ≡ none
    → insertion_error input db ≡ none
    → broken_constraint (booking_params (draft input)) db ≡ none
unfolding broken_constraint
broken_constraint_of_creation_error input db h k =
    ground (arith, is_listed_role-is_known input.caller.role)

pub create-quiet :
    (b : Booking) (w : World)
    → broken_constraint (booking_params b) w.db ≡ none
    → create b (quiet w) ≡ (
      ok (scan_booking (numbered (booking_params b) w.db)),
      record (quiet w) { db = after_insert (booking_params b) w.db },
    )
unfolding create query insert_booking
create-quiet b w h = rw (h, insert_booking)

-- A row whose range is empty or meets another one's is refused, and uses up an identifier.
pub create-refused :
    (input : CreateBookingInput) (w : World) (e : Error)
    → creation_error input w.db ≡ none
    → insertion_error input w.db ≡ some e
    → create (draft input) (quiet w)
      ≡ (err e, record (quiet w) { db = record w.db { booking_seq = suc w.db.booking_seq } })
unfolding create query insert_booking broken_constraint translate_insert_error
create-refused input w e h k = ground (arith, is_listed_role-is_known input.caller.role)

-- The events that a broker has taken, once it was handed another one.
abbrev pub handed : Event → World → List Event
handed event w = elim w.broker_error [ none ↦ w.sent ++ event ∷ [] | some e ↦ w.sent ]

-- The new row, and the world after it.
abbrev pub new_row : CreateBookingInput → World → BookingRow
new_row input w = numbered (booking_params (draft input)) w.db

-- What `CreateBooking` is to do, told from the tables alone.
abbrev pub creation : CreateBookingInput → World → Result Error Booking × World
creation input w = elim (creation_error input w.db) [
  | some e ↦ (err e, quiet w)
  | none ↦ elim (insertion_error input w.db) [
    | some e ↦ (err e, record (quiet w) { db = record w.db { booking_seq = suc w.db.booking_seq } })
    | none ↦ (
      ok (scan_booking (new_row input w)),
      record (quiet w) {
        db = after_insert (booking_params (draft input)) w.db;
        sent = handed (created_event (scan_booking (new_row input w)) w.clock) w;
      },
    )
  ]
]

pub publish-quiet :
    (event : Event) (w : World)
    → publish store_ports event w ≡ (ok tt, record w { sent = handed event w })
unfolding publish
publish-quiet event w = elim (Option-cases w.broker_error) [
  | inl e ↦ rw e refl
  | inr (x, e) ↦ rw e refl
]

-- Over a database with no other client and no faults, `CreateBooking` answers and does exactly
-- what `creation` tells from the tables alone: the first of its errors that applies and no change,
-- except that a row refused only once its times are cut to microseconds uses up an identifier; or
-- one new row under the next identifier, and one event among those that a working broker has
-- taken.
pub create_booking-creation :
    (input : CreateBookingInput) (w : World)
    → create_booking store_ports input (quiet w) ≡ creation input w
unfolding create_booking validate_time_range publish
create_booking-creation input w = elim (Option-cases (insertion_error input w.db)) [
  | inl k ↦ ground (
    arith,
    k,
    get_by_id-quiet input.room_id w,
    list_by_room_id-quiet input.room_id w,
    conflicts-meets input w.db,
    broken_constraint_of_creation_error input w.db,
    create-quiet (draft input) w,
  )
  | inr (e, k) ↦ ground (
    arith,
    k,
    get_by_id-quiet input.room_id w,
    list_by_room_id-quiet input.room_id w,
    conflicts-meets input w.db,
    create-refused input w e,
  )
]
