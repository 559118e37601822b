-- ===== src/Tests/Http.antt =====
-- The HTTP side, the gateway, the configuration and the import at the start.
use uban_z.Prelude.{
  ℕ, pos, String, Bool, true, false, not, ◌&&◌, ◌||◌, any, List, [], ◌∷◌, Option, none, some, ◌≡◌,
  ◌≢◌, ◌⊎◌, ◌==◌, refl, ok, err, Result, arith, trim_space, itoa, M, if◌then◌else◌,
}
use uban_z.Clock.{Time}
use uban_z.Booking.Http.{CreateBookingRequest, post_booking}
use uban_z.Booking.Http.Statuses.{post_status, post_booking-status}
use uban_z.Booking.Role.{role_student_b}
use uban_z.Booking.Domain.{Error, errors_is, canceled}
use uban_z.Config.{Config, validate}
use uban_z.Gateway.{Upstream, GatewayError, modified, is_json_response}
use uban_z.Gateway.Errors.{has_json, modified-readable}
use uban_z.Httpx.Identity.{Identity}
use uban_z.Parser.Domain.{ImportStats, no_stats}
use uban_z.Parser.Times.{Location}
use uban_z.Startup.{
  Attempt, Progress, start_startup_schedule_import, new_import_status_tracker,
  with_schedule_import_lock, check_and_import, mark_running,
}
use uban_z.Startup.Progress.{IsSettled, start_startup_schedule_import-IsSettled}
use uban_z.Store.World.{quiet}
use uban_z.Store.Repository.{store_ports}
use uban_z.Tests.Data.{world, tables}

abbrev format : Time → String
format t = itoa (pos t)

abbrev student_identity : Identity
student_identity = record { user_id = pos 5; login = "student"; role = role_student_b }

abbrev during_lecture : CreateBookingRequest
during_lecture = record { room_id = pos 1; start_time = 1500000; end_time = 2500000 }

post_booking-status_example :
    (post_booking store_ports format
      (some student_identity)
      (some during_lecture)
      (quiet world)).0.status
    ≡ post_status student_identity (some during_lecture) tables
post_booking-status_example =
    post_booking-status format student_identity (some during_lecture) world

abbrev config : Config
config = record {
  database_url = "postgres://db";
  log_level = "info";
  shutdown_timeout = pos 5000000000;
  events_enabled = false;
  rabbitmq_url = "";
  jwt_secret = "key";
  parser_base_url = "https://table.nsu.ru";
  parser_timeout = pos 30000000000;
  parser_weeks_ahead = pos 16;
  parser_default_building = "НГУ";
  parser_default_capacity = pos 30;
  parser_timezone = "Asia/Novosibirsk";
}

abbrev load_location : String → Option String
load_location name = if name == "Asia/Novosibirsk" then none else some "unknown time zone"

abbrev somewhere : Location
somewhere = record { day = λ t. 0; clock = λ t. t; date = λ d c. c }

accepted : validate load_location config ≡ ok tt
unfolding validate trim_space uban_z.Prelude.is_space
accepted = refl

abbrev marshal : GatewayError → String
marshal e = e.error

abbrev same_text : String → String
same_text s = s

abbrev status_text : ℕ → String
status_text n = itoa (pos n)

abbrev never_json : String → Bool
never_json s = false

abbrev failing : Upstream
failing = record { status = 502; content_type = "text/html"; body = ok "down" }

abbrev normal_response : Upstream
normal_response = modified marshal same_text status_text never_json "booking" failing

modified-readable_example :
    (normal_response.status ≡ 502)
    × ((is_json_response marshal same_text status_text never_json normal_response.content_type
          ≡ true)
        ⊎ (has_json marshal same_text status_text never_json normal_response.body ≡ true))
modified-readable_example =
    modified-readable marshal same_text status_text never_json "booking" failing (omega arith) refl

abbrev origins : List String
origins = " https://uban.example " ∷ "" ∷ []

-- The second attempt gets the lock, and finds no schedule.
abbrev attempts : List Attempt
attempts =
    record { answer = ok false; commit = none; ctx_err = none }
    ∷ record { answer = ok true; commit = none; ctx_err = none }
    ∷ []

abbrev instant : ℕ → Time
instant s = s

abbrev has_none : M ℕ Error Bool
has_none s = (ok false, s)

abbrev import_nothing : M ℕ Error ImportStats
import_nothing s = (ok no_stats, s)

abbrev before_start : Progress ℕ
before_start = (100, new_import_status_tracker)

lock_result :
    (with_schedule_import_lock attempts
      (check_and_import instant has_none import_nothing)
      (100, mark_running 100 new_import_status_tracker)).0
    ≡ some (ok tt)
unfolding with_schedule_import_lock check_and_import
lock_result = refl

not_canceled :
    (e : Error) → Path (Result Error (Unit {0})) (ok tt) (err e) → errors_is e canceled ≡ false
not_canceled e h = absurd (cc h)

start_startup_schedule_import-IsSettled_example :
    IsSettled
      (start_startup_schedule_import instant has_none import_nothing attempts before_start).1
start_startup_schedule_import-IsSettled_example =
    start_startup_schedule_import-IsSettled instant has_none import_nothing attempts before_start
      (ok tt) lock_result not_canceled
