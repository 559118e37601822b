-- ===== src/Booking/Http/Statuses.antt =====
-- What the booking service answers over HTTP.
use uban_z.Prelude.{
  ℕ, ℤ, String, not, find, any, Option, none, some, ◌≡◌, refl, arith, if◌then◌else◌,
}
use uban_z.Clock.{Time, before, timestamptz}
use uban_z.Booking.Role.{is_known}
use uban_z.Booking.Domain.{Error, errors_is, wrap}
use uban_z.Booking.Ports.{Ports}
use uban_z.Booking.Service.{draft, publish}
use uban_z.Booking.Http.{
  CreateBookingRequest, Body, error_response, error_status, post_booking, get_booking_my,
  delete_booking_id, create_input, caller_of,
}
use uban_z.Httpx.Identity.{Identity, require_identity}
use uban_z.Httpx.Response.{Response}
use uban_z.Store.Table.{Db, has_room, clashes}
use uban_z.Store.World.{World, quiet}
use uban_z.Store.Repository.{booking_params, store_ports, with_id}
use uban_z.Store.Repository.Creation.{meets, create_booking-creation}
use uban_z.Store.Repository.Cancellation.{cancel_booking-cancellation, may_cancel}

-- Over any repositories, the three endpoints that need an identity answer a request without one
-- with 401, and nothing else changes.
pub anonymous-unauthorized :
    {S : Type 0} (p : Ports S) (format_rfc3339 : Time → String)
    (request : Option CreateBookingRequest) (id : ℤ) (s : S)
    → let refused : Response Body × S =
        (record { status = 401; body = error_response "authentication required" }, s) in
      (post_booking p format_rfc3339 none request s ≡ refused)
      × (get_booking_my p format_rfc3339 none s ≡ refused)
      × (delete_booking_id p format_rfc3339 none id s ≡ refused)
unfolding post_booking get_booking_my delete_booking_id require_identity
anonymous-unauthorized p format_rfc3339 request id s = (refl, refl, refl)

-- A wrapped error has the status of the error inside.
pub error_status-wrap : (text : String) (e : Error) → error_status (wrap text e) ≡ error_status e
unfolding error_status errors_is
error_status-wrap text e = refl

-- The status of a creation, told from the tables.
abbrev pub post_status : Identity → Option CreateBookingRequest → Db → ℕ
post_status identity none db = 400
post_status identity (some request) db =
    let input = create_input identity request in
    if not (is_known identity.role)
    then 403
    else if not (before request.start_time request.end_time)
    then 400
    else if not (has_room request.room_id db.rooms)
    then 404
    else if any (meets input) db.bookings
    then 409
    else if not (before (timestamptz request.start_time) (timestamptz request.end_time))
    then 400
    else if any (clashes (booking_params (draft input))) db.bookings
    then 409
    else 200

-- Over a database with no other client and no faults, the status of every authenticated request to
-- book is the one that `post_status` tells from the request and the tables, where the times of the
-- row are cut to microseconds: 400, 403, 404, 409 or 200, in the order of its tests.
pub post_booking-status :
    (format_rfc3339 : Time → String) (identity : Identity) (request : Option CreateBookingRequest)
    (w : World)
    → (post_booking store_ports format_rfc3339 (some identity) request (quiet w)).0.status
      ≡ post_status identity request w.db
unfolding post_booking require_identity error_status errors_is
post_booking-status format_rfc3339 identity none w = refl
post_booking-status format_rfc3339 identity (some request) w =
    ground (arith, create_booking-creation (create_input identity request) w)

-- The status of a cancellation, told from the tables.
abbrev pub delete_status : Identity → ℤ → Db → ℕ
delete_status identity id db =
    if not (is_known identity.role) then 403 else elim (find (with_id id) db.bookings) [
      | none ↦ 404
      | some b ↦ if may_cancel (caller_of identity) b then 200 else 403
    ]

-- Over a database with no other client and no faults, the status of every authenticated request to
-- cancel is the one that `delete_status` tells from the tables: 403 for an unknown role, 404 for
-- no such booking, 403 for a caller who may not cancel it, else 200.
pub delete_booking_id-status :
    (format_rfc3339 : Time → String) (identity : Identity) (id : ℤ) (w : World)
    → (delete_booking_id store_ports format_rfc3339 (some identity) id (quiet w)).0.status
      ≡ delete_status identity id w.db
unfolding delete_booking_id require_identity error_status errors_is publish
delete_booking_id-status format_rfc3339 identity id w =
    ground (arith, cancel_booking-cancellation id (caller_of identity) w)
