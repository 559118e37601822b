-- ===== src/Booking/Service.antt =====
-- internal/core/booking/service/service.go.
pub mod Guards
use Prim.Native.String
use uban_z.Prelude.{
  ℤ, eqb_ℤ, String, Bool, true, false, not, ◌&&◌, ◌||◌, List, [], map, any, Option, none, some,
  ◌==◌, Result, ok, err, M, ◌>>=◌, ◌>>◌, pure, fail, lift, require, if◌then◌else◌,
}
use uban_z.Clock.{Time, before}
use uban_z.Booking.Role.{Role, is_known, can_cancel_other}
use uban_z.Booking.Domain.{
  Room, Booking, ScheduleItem, Error, forbidden, schedule_conflict, validate_time_range,
}
use uban_z.Booking.Ports.{Actor, Event, Ports, event_booking_created, event_booking_cancelled}

pub record Caller : Type 0 where
  pub user_id : ℤ
  pub login : String
  pub role : Role

pub record CreateBookingInput : Type 0 where
  pub caller : Caller
  pub room_id : ℤ
  pub start_time : Time
  pub end_time : Time

unfoldable pub overlaps : Time → Time → Time → Time → Bool
overlaps start_a end_a start_b end_b = before start_a end_b && before start_b end_a

unfoldable pub schedule_type : Booking → String
schedule_type b =
    if b.subject == "" && b.lesson_type == ""
    then "booking"
    else if b.subject == ""
    then b.lesson_type
    else if b.lesson_type == ""
    then b.subject
    else String.◌++◌ b.lesson_type (String.◌++◌ ": " b.subject)

-- The body of the loop in `GetRoomSchedule`.
abbrev pub schedule_item : Booking → ScheduleItem
schedule_item b = record {
  start_time = b.start_time;
  end_time = b.end_time;
  kind = schedule_type b;
  teacher = b.teacher;
  group_numbers = b.group_numbers;
}

-- The booking that `CreateBooking` hands to the repository; the other fields are zero values.
abbrev pub draft : CreateBookingInput → Booking
draft input = record {
  id = ℤ.pos 0;
  room_id = input.room_id;
  user_id = input.caller.user_id;
  creator_role = input.caller.role;
  start_time = input.start_time;
  end_time = input.end_time;
  subject = "";
  lesson_type = "";
  teacher = "";
  group_numbers = [];
  week = "";
}

abbrev pub created_event : Booking → Time → Event
created_event b now = record {
  kind = event_booking_created;
  booking_id = b.id;
  room_id = b.room_id;
  owner_id = b.user_id;
  owner_role = b.creator_role;
  start_time = b.start_time;
  end_time = b.end_time;
  cancelled_by = none;
  self_cancel = false;
  occurred_at = now;
}

abbrev pub cancelled_event : Booking → Caller → Bool → Time → Event
cancelled_event b caller self_cancel now = record {
  kind = event_booking_cancelled;
  booking_id = b.id;
  room_id = b.room_id;
  owner_id = b.user_id;
  owner_role = b.creator_role;
  start_time = b.start_time;
  end_time = b.end_time;
  cancelled_by =
      some (record { user_id = caller.user_id; login = caller.login; role = caller.role });
  self_cancel = self_cancel;
  occurred_at = now;
}

-- The test of the loop in `CreateBooking` that looks for a conflict.
abbrev pub conflicts : CreateBookingInput → List Booking → Bool
conflicts input existing =
    any (λ b. overlaps input.start_time input.end_time b.start_time b.end_time) existing

module _ {S : Type 0} (p : Ports S) where
  -- Fire and forget: an error of the publisher is dropped.
  unfoldable pub publish : Event → M S Error (Unit {0})
  publish event s = elim p.publisher [ none ↦ (ok tt, s) | some send ↦ (ok tt, (send event s).1) ]

  abbrev read_clock : M S Error Time
  read_clock s = (ok (p.now s).0, (p.now s).1)

  unfoldable pub list_rooms : M S Error (List Room)
  list_rooms = p.list_rooms

  unfoldable pub get_room_schedule : ℤ → M S Error (List ScheduleItem)
  get_room_schedule room_id = do
    _ ← p.get_room room_id
    bookings ← p.list_by_room_id room_id
    pure (map schedule_item bookings)

  unfoldable pub list_my_bookings : Caller → M S Error (List Booking)
  list_my_bookings caller = do
    require (is_known caller.role) forbidden
    p.list_by_user_id caller.user_id

  unfoldable pub create_booking : CreateBookingInput → M S Error Booking
  unfolding publish
  create_booking input = do
    require (is_known input.caller.role) forbidden
    lift (validate_time_range input.start_time input.end_time)
    _ ← p.get_room input.room_id
    existing ← p.list_by_room_id input.room_id
    require (not (conflicts input existing)) schedule_conflict
    booking ← p.create (draft input)
    now ← read_clock
    publish (created_event booking now)
    pure booking

  unfoldable pub cancel_booking : ℤ → Caller → M S Error (Unit {0})
  unfolding publish
  cancel_booking booking_id caller = do
    require (is_known caller.role) forbidden
    booking ← p.get_booking booking_id
    let self_cancel = eqb_ℤ booking.user_id caller.user_id
    require (self_cancel || can_cancel_other caller.role booking.creator_role) forbidden
    p.delete_by_id booking_id
    now ← read_clock
    publish (cancelled_event booking caller self_cancel now)
