-- ===== src/Tests/Booking.antt =====
-- The use cases of bookings, and the roles.
use uban_z.Prelude.{◌<◌, pos, true, false, List, none, ◌≡◌, ◌⊎◌, refl, ok}
use uban_z.Booking.Role.{is_known, can_cancel_other}
use uban_z.Booking.Domain.{Booking}
use uban_z.Booking.Service.{create_booking, cancel_booking, conflicts}
use uban_z.Booking.Service.Guards.{
  with_publisher, create_booking-publisher, cancel_booking-authorized, create_booking-checked,
}
use uban_z.Store.World.{World, quiet}
use uban_z.Store.Repository.{store_ports, scan_booking}
use uban_z.Store.Repository.Creation.{new_row}
use uban_z.Tests.Data.{world, busy_world, request, lecturer}

create_booking-publisher_example :
    (create_booking store_ports request busy_world).0
    ≡ (create_booking (with_publisher store_ports none) request busy_world).0
create_booking-publisher_example = create_booking-publisher store_ports none request busy_world

abbrev cancelled_world : World
cancelled_world = (cancel_booking store_ports (pos 1) lecturer (quiet world)).1

cancelled : cancel_booking store_ports (pos 1) lecturer (quiet world) ≡ (ok tt, cancelled_world)
unfolding cancel_booking is_known uban_z.Store.Repository.get_booking_by_id uban_z.Store.World.query
    uban_z.Store.Table.select_booking uban_z.Store.Repository.delete_by_id
    uban_z.Store.Table.delete_bookings
cancelled = refl

cancel_booking-authorized_example :
    (is_known lecturer.role ≡ true)
    × ((b : Booking) × ((store_ports.get_booking (pos 1) (quiet world)).0 ≡ ok b)
        × ((b.user_id ≡ lecturer.user_id) ⊎ (can_cancel_other lecturer.role b.creator_role ≡ true)))
cancel_booking-authorized_example =
    cancel_booking-authorized store_ports (pos 1) lecturer (quiet world) cancelled_world cancelled

abbrev booked_world : World
booked_world = (create_booking store_ports request (quiet world)).1

booked :
    create_booking store_ports request (quiet world)
    ≡ (ok (scan_booking (new_row request world)), booked_world)
unfolding uban_z.Clock.timestamptz create_booking is_known uban_z.Booking.Domain.validate_time_range
    uban_z.Store.Repository.get_by_id uban_z.Store.World.query uban_z.Store.Table.select_room
    uban_z.Store.Repository.list_by_room_id uban_z.Store.Table.select_by_room
    uban_z.Booking.Service.overlaps uban_z.Store.Repository.create uban_z.Store.Table.insert_booking
    uban_z.Store.Table.broken_constraint
booked = refl

create_booking-checked_example :
    (is_known request.caller.role ≡ true)
    × (request.start_time < request.end_time)
    × ((existing : List Booking) × ((store_ports.list_by_room_id request.room_id
            (store_ports.get_room request.room_id (quiet world)).1).0
          ≡ ok existing)
        × (conflicts request existing ≡ false))
create_booking-checked_example =
    create_booking-checked store_ports request (scan_booking (new_row request world)) (quiet world)
      booked_world booked
