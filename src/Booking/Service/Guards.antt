-- ===== src/Booking/Service/Guards.antt =====
-- What the use cases of internal/core/booking/service/service.go guarantee over any repositories.
use uban_z.Prelude.{
  ℤ, eqb_ℤ_iff, true, false, List, Option, ◌≡◌, ◌⊎◌, arith, Result-cases, inl, inr, ◌<◌, ok, M,
}
use uban_z.Booking.Role.{is_known, can_cancel_other}
use uban_z.Booking.Domain.{Error, Booking, validate_time_range}
use uban_z.Booking.Ports.{Ports, Event}
use uban_z.Booking.Service.{Caller, CreateBookingInput, create_booking, cancel_booking, conflicts}

module _ {S : Type 0} (p : Ports S) where
  abbrev pub with_publisher : Option (Event → M S Error (Unit {0})) → Ports S
  with_publisher q = record p { publisher = q }

-- Over any repositories, the answer of a creation stays the same when the publisher is replaced by
-- any other or by none, so that a failing broker never fails a request.
pub create_booking-publisher :
    {S : Type 0} (p : Ports S) (q : Option (Event → M S Error (Unit {0})))
    (input : CreateBookingInput) (s : S)
    → (create_booking p input s).0 ≡ (create_booking (with_publisher p q) input s).0
unfolding create_booking
create_booking-publisher p q input s = ground arith

pub cancel_booking-publisher :
    {S : Type 0} (p : Ports S) (q : Option (Event → M S Error (Unit {0}))) (id : ℤ)
    (caller : Caller) (s : S)
    → (cancel_booking p id caller s).0 ≡ (cancel_booking (with_publisher p q) id caller s).0
unfolding cancel_booking
cancel_booking-publisher p q id caller s = ground arith

-- Over any repositories, a cancellation that succeeds was asked for by a known role, and the
-- booking that the repository returned belongs to the caller or to a creator whose bookings the
-- caller's role may cancel.
pub cancel_booking-authorized :
    {S : Type 0} (p : Ports S) (id : ℤ) (caller : Caller) (s s' : S)
    → cancel_booking p id caller s ≡ (ok tt, s')
    → (is_known caller.role ≡ true)
      × ((b : Booking) × ((p.get_booking id s).0 ≡ ok b)
          × ((b.user_id ≡ caller.user_id) ⊎ (can_cancel_other caller.role b.creator_role ≡ true)))
unfolding cancel_booking
cancel_booking-authorized p id caller s s' h = elim (Result-cases (p.get_booking id s).0) [
  | inl (b, e) ↦ (ground arith, (b, e, ground (arith, eqb_ℤ_iff b.user_id caller.user_id)))
  | inr (x, e) ↦ absurd (ground arith)
]

-- Over any repositories, a creation that succeeds was asked for by a known role, for a range that
-- ends after it starts, and none of the bookings that the repository listed for the room after the
-- room was found overlaps it.
pub create_booking-checked :
    {S : Type 0} (p : Ports S) (input : CreateBookingInput) (b : Booking) (s s' : S)
    → create_booking p input s ≡ (ok b, s')
    → (is_known input.caller.role ≡ true)
      × (input.start_time < input.end_time)
      × ((existing : List Booking) × ((p.list_by_room_id input.room_id
              (p.get_room input.room_id s).1).0
            ≡ ok existing)
          × (conflicts input existing ≡ false))
unfolding create_booking validate_time_range
create_booking-checked p input b s s' h =
    elim (Result-cases (p.list_by_room_id input.room_id (p.get_room input.room_id s).1).0) [
      | inl (existing, e) ↦ (ground arith, ground arith, (existing, e, ground arith))
      | inr (x, e) ↦ absurd (ground arith)
    ]
