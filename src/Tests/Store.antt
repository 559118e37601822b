-- ===== src/Tests/Store.antt =====
-- Bookings over the tables.
use uban_z.Prelude.{none, some, List, pos, eqb, Bool, [], ◌∷◌, ◌≡◌, refl, ok}
use uban_z.Booking.Role.{is_known}
use uban_z.Booking.Domain.{validate_time_range, other}
use uban_z.Booking.Service.{
  overlaps, publish, create_booking, cancel_booking, get_room_schedule, schedule_item,
}
use uban_z.Store.Table.{BookingRow, select_room, insert_booking, broken_constraint, select_by_room}
use uban_z.Store.Table.Valid.{IsValid}
use uban_z.Store.World.{quiet, query, World, Turn, reply_lost}
use uban_z.Store.Repository.{get_by_id, list_by_room_id, create, store_ports, scan_booking}
use uban_z.Store.Repository.Safety.{create_booking-Keeps}
use uban_z.Store.Repository.Failures.{IsCancellation, cancel_booking-IsCancellation}
use uban_z.Store.Repository.Creation.{creation, new_row, create_booking-creation}
use uban_z.Store.Repository.Cancellation.{
  cancellation, cancel_booking-cancellation, cancel_booking-create_booking,
}
use uban_z.Store.Repository.Listing.{Chronological, get_room_schedule-Chronological}
use uban_z.Tests.Data.{lecture, tables-IsValid, world, busy_world, request, lecturer, student}

create_booking-Keeps_example : IsValid (create_booking store_ports request busy_world).1.db
create_booking-Keeps_example = create_booking-Keeps request busy_world tables-IsValid

abbrev lonely_turns : List Turn
lonely_turns =
    record { others = []; tx_faults = []; fault = none }
    ∷ record { others = []; tx_faults = []; fault = some (reply_lost (other "connection reset")) }
    ∷ []

abbrev lonely_world : World
lonely_world = record world { plan = lonely_turns }

cancel_booking-IsCancellation_example :
    IsCancellation
      (pos 1)
      lecturer
      lonely_world
      (cancel_booking store_ports (pos 1) lecturer lonely_world)
cancel_booking-IsCancellation_example =
    cancel_booking-IsCancellation (pos 1) lecturer lonely_world (refl, (refl, tt))

create_booking-creation_example :
    create_booking store_ports request (quiet world) ≡ creation request world
create_booking-creation_example = create_booking-creation request world

cancel_booking-cancellation_example :
    cancel_booking store_ports (pos 1) lecturer (quiet world) ≡ cancellation (pos 1) lecturer world
cancel_booking-cancellation_example = cancel_booking-cancellation (pos 1) lecturer world

made : create_booking store_ports request (quiet world) ≡ (
  ok (scan_booking (new_row request world)),
  (create_booking store_ports request (quiet world)).1,
)
unfolding uban_z.Clock.timestamptz create_booking validate_time_range is_known get_by_id
    list_by_room_id create query select_room select_by_room insert_booking broken_constraint publish
    overlaps
made = refl

cancel_booking-create_booking_example :
    ((cancel_booking store_ports
        (pos 2)
        student
        (quiet (create_booking store_ports request (quiet world)).1)).0
      ≡ ok tt)
    × ((cancel_booking store_ports
          (pos 2)
          student
          (quiet (create_booking store_ports request (quiet world)).1)).1.db.bookings
        ≡ lecture ∷ [])
cancel_booking-create_booking_example =
    cancel_booking-create_booking request world (scan_booking (new_row request world))
      (create_booking store_ports request (quiet world)).1 tables-IsValid made

listed :
    get_room_schedule store_ports (pos 1) (quiet world)
    ≡ (ok (schedule_item (scan_booking lecture) ∷ []), quiet world)
unfolding get_room_schedule get_by_id list_by_room_id query select_room select_by_room
listed = refl

get_room_schedule-Chronological_example : Chronological (schedule_item (scan_booking lecture) ∷ [])
get_room_schedule-Chronological_example =
    get_room_schedule-Chronological (pos 1) world (schedule_item (scan_booking lecture) ∷ [])
      (quiet world) tables-IsValid listed

abbrev is_first : BookingRow → Bool
is_first b = eqb b.id 1
