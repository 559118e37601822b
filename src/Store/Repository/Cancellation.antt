-- ===== src/Store/Repository/Cancellation.antt =====
-- What `CancelBooking` answers and deletes over a quiet database.
use uban_z.Prelude.{
  ℕ, ℤ, suc, ◌≤◌, pos, eqb, eqb_ℤ, eqb_ℤ_refl, Bool, true, false, not, ◌||◌, List, [], ◌∷◌, find,
  filter, Option, none, some, ◌≡◌, ◌∙◌, sym, refl, arith, Result, ok, err, if◌then◌else◌,
  Option-cases, inl, inr, ◌⊎◌,
}
use uban_z.Booking.Role.{is_known, can_cancel_other}
use uban_z.Booking.Domain.{Error, Booking, forbidden, booking_not_found, errors_is}
use uban_z.Booking.Service.{
  Caller, CreateBookingInput, create_booking, cancel_booking, publish, cancelled_event, draft,
}
use uban_z.Store.Table.{BookingRow, Db, select_booking, delete_bookings, count_rows}
use uban_z.Store.Table.Valid.{IsValid, IdsBelow}
use uban_z.Store.World.{World, query, quiet}
use uban_z.Store.Repository.{
  scan_booking, booking_params, store_ports, get_booking_by_id, delete_by_id, with_id,
}
use uban_z.Store.Repository.Creation.{
  creation, create_booking-creation, new_row, handed, after_insert,
}

-- Who may cancel a booking: its owner, and a role above that of its creator.
abbrev pub may_cancel : Caller → BookingRow → Bool
may_cancel caller b = eqb_ℤ b.user_id caller.user_id || can_cancel_other caller.role b.creator_role

abbrev pub cancellation_of : Caller → Option BookingRow → Result Error BookingRow
cancellation_of caller none = err booking_not_found
cancellation_of caller (some b) = if may_cancel caller b then ok b else err forbidden

-- The row that a request deletes, or the error that it meets, told from the tables alone.
abbrev pub cancelled_row : ℤ → Caller → Db → Result Error BookingRow
cancelled_row id caller db =
    if is_known caller.role
    then cancellation_of caller (find (with_id id) db.bookings)
    else err forbidden

abbrev pub after_delete : ℤ → Db → Db
after_delete id db = record db { bookings = filter (λ b. not (with_id id b)) db.bookings }

-- What `CancelBooking` is to do.
abbrev pub cancellation : ℤ → Caller → World → Result Error (Unit {0}) × World
cancellation id caller w = elim (cancelled_row id caller w.db) [
  | err e ↦ (err e, quiet w)
  | ok b ↦ (
    ok tt,
    record (quiet w) {
      db = after_delete id w.db;
      sent =
          handed (cancelled_event (scan_booking b) caller (eqb_ℤ b.user_id caller.user_id) w.clock)
            w;
    },
  )
]

count-find :
    (p : BookingRow → Bool) (bs : List BookingRow) (b : BookingRow)
    → find p bs ≡ some b
    → eqb (count_rows p bs) 0 ≡ false
count-find p [] b h = absurd (cc h)
count-find p (x ∷ bs) b h = ground (arith, count-find p bs b)

get_booking_by_id-quiet :
    (id : ℤ) (w : World)
    → ((find (with_id id) w.db.bookings ≡ none)
        × (get_booking_by_id id (quiet w) ≡ (err booking_not_found, quiet w)))
      ⊎ ((b : BookingRow) × (find (with_id id) w.db.bookings ≡ some b)
          × (get_booking_by_id id (quiet w) ≡ (ok (scan_booking b), quiet w)))
unfolding get_booking_by_id query select_booking errors_is
get_booking_by_id-quiet id w = elim (Option-cases (find (with_id id) w.db.bookings)) [
  | inl e ↦ inl (e, rw e)
  | inr (b, e) ↦ inr (b, e, rw e)
]

delete_by_id-quiet :
    (id : ℤ) (w : World) (b : BookingRow)
    → find (with_id id) w.db.bookings ≡ some b
    → delete_by_id id (quiet w) ≡ (ok tt, record (quiet w) { db = after_delete id w.db })
unfolding delete_by_id query delete_bookings
delete_by_id-quiet id w b h = rw (count-find (with_id id) w.db.bookings b h)

-- Over a database with no other client and no faults, `CancelBooking` answers and does exactly
-- what `cancellation` tells from the tables alone: an error and no change, or the row of that
-- identifier deleted and one event among those that a working broker has taken.
pub cancel_booking-cancellation :
    (id : ℤ) (caller : Caller) (w : World)
    → cancel_booking store_ports id caller (quiet w) ≡ cancellation id caller w
unfolding cancel_booking publish
cancel_booking-cancellation id caller w = elim (get_booking_by_id-quiet id w) [
  | inl (missing, e) ↦ ground (arith, missing, e)
  | inr (b, found, e) ↦ ground (arith, found, e, delete_by_id-quiet id w b found)
]

-- No row has an identifier above the sequence.
filter_fresh :
    (m n : ℕ) (bs : List BookingRow)
    → IdsBelow n bs
    → n ≤ m
    → filter (λ b. not (with_id (pos m) b)) bs ≡ bs
filter_fresh m n [] h le = refl
filter_fresh m n (b ∷ bs) h le = ground (arith, filter_fresh m b.id bs h.1)

find_fresh : (b : BookingRow) (bs : List BookingRow) → find (with_id (pos b.id)) (b ∷ bs) ≡ some b
find_fresh b bs = ground (arith, eqb_ℤ_refl (pos b.id))

-- What a creation that succeeded left behind.
abbrev IsMade : CreateBookingInput → World → Booking → World → Type 0
IsMade input w b s =
    (is_known input.caller.role ≡ true)
    × (b ≡ scan_booking (new_row input w))
    × (s.db ≡ after_insert (booking_params (draft input)) w.db)

creation-IsMade :
    (input : CreateBookingInput) (w : World) (b : Booking) (s : World)
    → creation input w ≡ (ok b, s)
    → IsMade input w b s
creation-IsMade input w b s h = ground arith

-- Over valid tables with no other client and no faults, a booking that was created can be
-- cancelled by its creator, and the bookings are then what they were before it.
pub cancel_booking-create_booking :
    (input : CreateBookingInput) (w : World) (b : Booking) (s : World)
    → IsValid w.db
    → create_booking store_ports input (quiet w) ≡ (ok b, s)
    → ((cancel_booking store_ports b.id input.caller (quiet s)).0 ≡ ok tt)
      × ((cancel_booking store_ports b.id input.caller (quiet s)).1.db.bookings ≡ w.db.bookings)
cancel_booking-create_booking input w b s v made =
    let m = creation-IsMade input w b s (sym (create_booking-creation input w) ∙ made) in
    ground (
      arith,
      m,
      cancel_booking-cancellation b.id input.caller s,
      filter_fresh (suc w.db.booking_seq) (suc w.db.booking_seq) w.db.bookings v.booking_ids,
      find_fresh (new_row input w) w.db.bookings,
      eqb_ℤ_refl input.caller.user_id,
    )
