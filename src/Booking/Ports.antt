-- ===== src/Booking/Ports.antt =====
-- internal/core/booking/port: repository.go and events.go. A port is a function on a state `S` that
-- stands for everything outside the core: the database, the broker and the clock.
use uban_z.Prelude.{ℤ, String, Bool, List, Option, M}
use uban_z.Clock.{Time}
use uban_z.Booking.Role.{Role}
use uban_z.Booking.Domain.{Room, Booking, Error}

abbrev pub event_booking_created : String
event_booking_created = "booking.created"

abbrev pub event_booking_cancelled : String
event_booking_cancelled = "booking.cancelled"

pub record Actor : Type 0 where
  pub user_id : ℤ
  pub login : String
  pub role : Role

pub record Event : Type 0 where
  pub kind : String
  pub booking_id : ℤ
  pub room_id : ℤ
  pub owner_id : ℤ
  pub owner_role : Role
  pub start_time : Time
  pub end_time : Time
  pub cancelled_by : Option Actor
  pub self_cancel : Bool
  pub occurred_at : Time

-- The fields of `Service`: two repositories, the publisher (`none` is nil) and the clock.
pub record Ports (S : Type 0) : Type 0 where
  pub list_rooms : M S Error (List Room)
  pub get_room : ℤ → M S Error Room
  pub list_by_room_id : ℤ → M S Error (List Booking)
  pub list_by_user_id : ℤ → M S Error (List Booking)
  pub get_booking : ℤ → M S Error Booking
  pub create : Booking → M S Error Booking
  pub delete_by_id : ℤ → M S Error (Unit {0})
  pub publisher : Option (Event → M S Error (Unit {0}))
  pub now : S → Time × S
