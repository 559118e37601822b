-- ===== src/Tests/Data.antt =====
-- A room with one lecture, and requests to book it.
use uban_z.Prelude.{arith, refl, [], ◌∷◌, none, some, pos}
use uban_z.Booking.Role.{role_teacher, role_student_b, is_known}
use uban_z.Booking.Domain.{canceled}
use uban_z.Booking.Service.{Caller, CreateBookingInput}
use uban_z.Store.Table.{RoomRow, BookingRow, Db}
use uban_z.Store.Table.Valid.{IsValid}
use uban_z.Store.World.{World, refused, inserts}

abbrev pub lecture_hall : RoomRow
lecture_hall = record { id = 1; name = "3307"; capacity = pos 30; building = "НГУ" }

abbrev pub lecture : BookingRow
lecture = record {
  id = 1;
  room_id = pos 1;
  user_id = pos 7;
  creator_role = role_teacher;
  start_time = 1000000;
  end_time = 2000000;
  subject = none;
  lesson_type = none;
  teacher = none;
  group_numbers = [];
  week = none;
}

abbrev pub tables : Db
tables = record {
  rooms = lecture_hall ∷ [];
  bookings = lecture ∷ [];
  room_seq = 1;
  booking_seq = 1;
}

pub tables-IsValid : IsValid tables
unfolding is_known
tables-IsValid = record {
  sound = ((omega arith, refl, refl), tt);
  apart = (tt, tt);
  booking_ids = (omega arith, tt);
  room_ids = (omega arith, tt);
  distinct = (tt, tt);
  capacities = (refl, tt);
}

abbrev pub world : World
world = record { db = tables; plan = []; broker_error = none; sent = []; clock = 500 }

-- Another client books between our statements, and a later statement is refused.
abbrev pub busy_world : World
busy_world = record world {
  plan =
      record { others = []; tx_faults = []; fault = none }
      ∷ record {
        others = inserts (record lecture { start_time = 2000000; end_time = 2500000 }) ∷ [];
        tx_faults = [];
        fault = none;
      }
      ∷ record {
        others = [];
        tx_faults = none ∷ some canceled ∷ [];
        fault = some (refused canceled);
      }
      ∷ [];
}

abbrev pub student : Caller
student = record { user_id = pos 5; login = "student"; role = role_student_b }

abbrev pub lecturer : Caller
lecturer = record { user_id = pos 7; login = "lecturer"; role = role_teacher }

-- After the lecture.
abbrev pub request : CreateBookingInput
request = record { caller = student; room_id = pos 1; start_time = 3000000; end_time = 4000000 }
