-- ===== src/Booking/Domain.antt =====
-- internal/core/booking/domain: models.go, errors.go and validation.go. The errors of the drivers
-- that the adapters wrap are constructors too, so that `errors.Is` can look through a chain.
use uban_z.Prelude.{ℤ, String, Bool, true, false, List, Result, ok, err, if◌then◌else◌}
use uban_z.Clock.{Time, before}
use uban_z.Booking.Role.{Role}
use Prim.Native.String

pub record Room : Type 0 where
  pub id : ℤ
  pub name : String
  pub capacity : ℤ
  pub building : String

pub record Booking : Type 0 where
  pub id : ℤ
  pub room_id : ℤ
  pub user_id : ℤ
  pub creator_role : Role
  pub start_time : Time
  pub end_time : Time
  pub subject : String
  pub lesson_type : String
  pub teacher : String
  pub group_numbers : List String
  pub week : String

pub record ScheduleItem : Type 0 where
  pub start_time : Time
  pub end_time : Time
  pub kind : String
  pub teacher : String
  pub group_numbers : List String

pub data Error : Type 0 where
  room_not_found booking_not_found invalid_time_range schedule_conflict forbidden : Error
  invalid_request no_rows canceled : Error
  pg_error : (code constraint : String) → Error
  other : String → Error
  wrap : String → Error → Error

-- `errors.Is` against one of the values above, through any number of `%w` wrappers.
unfoldable pub errors_is : Error → Error → Bool
errors_is (wrap p e) target = errors_is e target
errors_is room_not_found room_not_found = true
errors_is booking_not_found booking_not_found = true
errors_is invalid_time_range invalid_time_range = true
errors_is schedule_conflict schedule_conflict = true
errors_is forbidden forbidden = true
errors_is invalid_request invalid_request = true
errors_is no_rows no_rows = true
errors_is canceled canceled = true
errors_is e target = false

-- `Error()`.
unfoldable pub message : Error → String
message room_not_found = "room not found"
message booking_not_found = "booking not found"
message invalid_time_range = "invalid time range"
message schedule_conflict = "schedule conflict"
message forbidden = "forbidden"
message invalid_request = "invalid request"
message no_rows = "no rows in result set"
message canceled = "context canceled"
message (pg_error code constraint) = String.◌++◌ constraint (String.◌++◌ " " code)
message (other s) = s
message (wrap p e) = String.◌++◌ p (String.◌++◌ ": " (message e))

unfoldable pub validate_time_range : Time → Time → Result Error (Unit {0})
validate_time_range start_time end_time =
    if before start_time end_time then ok tt else err invalid_time_range
