-- ===== src/Booking/Http.antt =====
-- internal/adapter/booking/http: errors.go, handler.go and mapper.go. A request is what the JSON
-- decoder made of its body, `none` where it failed. How an instant is printed is a parameter. Log
-- lines are not modelled.
pub mod Statuses
use uban_z.Prelude.{
  ℕ, ℤ, String, Bool, true, false, ◌||◌, List, [], ◌∷◌, map, Option, none, some, ◌==◌, Result, ok,
  err, if◌then◌else◌,
}
use uban_z.Clock.{Time}
use uban_z.Booking.Domain.{
  Room, Booking, ScheduleItem, Error, errors_is, message, invalid_request, invalid_time_range,
  room_not_found, booking_not_found, schedule_conflict, forbidden,
}
use uban_z.Booking.Ports.{Ports}
use uban_z.Booking.Service.{
  Caller, CreateBookingInput, list_rooms, get_room_schedule, list_my_bookings, create_booking,
  cancel_booking,
}
use uban_z.Httpx.Identity.{Identity, Verdict, passes, unauthorized, require_identity}
use uban_z.Httpx.Response.{Response}

-- The types of the generated server; a field that is left out is `none`.
pub record CreateBookingRequest : Type 0 where
  pub room_id : ℤ
  pub start_time : Time
  pub end_time : Time

pub record RoomResponse : Type 0 where
  pub building : String
  pub capacity : ℤ
  pub id : ℤ
  pub name : String

pub record ScheduleResponse : Type 0 where
  pub end_time : Time
  pub start_time : Time
  pub kind : String
  pub teacher : Option String
  pub group_numbers : Option (List String)

pub record BookingResponse : Type 0 where
  pub end_time : String
  pub id : ℤ
  pub room_id : ℤ
  pub start_time : String

pub data Body : Type 0 where
  no_body : Body
  error_response : String → Body
  room_list : List RoomResponse → Body
  schedule : List ScheduleResponse → Body
  booking_response : BookingResponse → Body
  booking_list : List BookingResponse → Body

unfoldable pub error_status : Error → ℕ
unfolding errors_is
error_status e =
    if errors_is e invalid_request || errors_is e invalid_time_range
    then 400
    else if errors_is e room_not_found || errors_is e booking_not_found
    then 404
    else if errors_is e schedule_conflict
    then 409
    else if errors_is e forbidden
    then 403
    else 500

abbrev pub write_json : ℕ → Body → Response Body
write_json status body = record { status = status; body = body }

unfoldable pub write_error : Error → Response Body
unfolding error_status message
write_error e = write_json (error_status e) (error_response (message e))

abbrev pub map_room : Room → RoomResponse
map_room room = record {
  building = room.building;
  capacity = room.capacity;
  id = room.id;
  name = room.name;
}

abbrev non_empty : List String → Option (List String)
non_empty [] = none
non_empty (g ∷ gs) = some (g ∷ gs)

abbrev pub map_schedule_item : ScheduleItem → ScheduleResponse
map_schedule_item item = record {
  end_time = item.end_time;
  start_time = item.start_time;
  kind = item.kind;
  teacher = if item.teacher == "" then none else some item.teacher;
  group_numbers = non_empty item.group_numbers;
}

abbrev pub map_booking : (Time → String) → Booking → BookingResponse
map_booking format b = record {
  end_time = format b.end_time;
  id = b.id;
  room_id = b.room_id;
  start_time = format b.start_time;
}

abbrev pub caller_of : Identity → Caller
caller_of identity = record {
  user_id = identity.user_id;
  login = identity.login;
  role = identity.role;
}

abbrev pub create_input : Identity → CreateBookingRequest → CreateBookingInput
create_input identity request = record {
  caller = caller_of identity;
  room_id = request.room_id;
  start_time = request.start_time;
  end_time = request.end_time;
}

-- A result becomes a body, or an error.
abbrev answer : {S A : Type 0} → (A → Body) → Result Error A × S → Response Body × S
answer f (ok a, s) = (write_json 200 (f a), s)
answer f (err e, s) = (write_error e, s)

-- A handler that needs the identity that the middleware found.
abbrev with_identity :
    {S : Type 0} → (Identity → S → Response Body × S) → Verdict Identity → S → Response Body × S
with_identity handler (unauthorized text) s = (write_json 401 (error_response text), s)
with_identity handler (passes identity) s = handler identity s

module _ {S : Type 0} (p : Ports S) (format_rfc3339 : Time → String) where
  unfoldable pub get_rooms : S → Response Body × S
  unfolding write_error list_rooms
  get_rooms s = answer (λ rooms. room_list (map map_room rooms)) (list_rooms p s)

  unfoldable pub get_rooms_id : ℤ → S → Response Body × S
  unfolding write_error
  get_rooms_id id s =
      answer (λ items. schedule (map map_schedule_item items)) (get_room_schedule p id s)

  abbrev post_decoded : Option CreateBookingRequest → Identity → S → Response Body × S
  post_decoded none identity s = (write_error invalid_request, s)
  post_decoded (some request) identity s =
      answer (λ b. booking_response (map_booking format_rfc3339 b))
        (create_booking p (create_input identity request) s)

  unfoldable pub post_booking :
      Option Identity → Option CreateBookingRequest → S → Response Body × S
  unfolding write_error require_identity
  post_booking identity request s =
      with_identity (post_decoded request) (require_identity identity) s

  unfoldable pub get_booking_my : Option Identity → S → Response Body × S
  unfolding write_error require_identity
  get_booking_my identity s =
      with_identity
        (λ i s.
          answer (λ bs. booking_list (map (map_booking format_rfc3339) bs))
            (list_my_bookings p (caller_of i) s))
        (require_identity identity) s

  unfoldable pub delete_booking_id : Option Identity → ℤ → S → Response Body × S
  unfolding write_error require_identity
  delete_booking_id identity id s =
      with_identity (λ i s. answer (λ _. no_body) (cancel_booking p id (caller_of i) s))
        (require_identity identity) s
