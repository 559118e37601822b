-- ===== src/Store/Repository/Failures.antt =====
-- What `CancelBooking` leaves behind when its statements fail or lose their replies.
use uban_z.Prelude.{
  ℤ, List, [], ◌∷◌, find, All, Option, none, some, ◌≡◌, refl, arith, Result, ok, err, M, inl, inr,
  ◌⊎◌, Bool-cases, Result-cases,
}
use uban_z.Booking.Domain.{Error, Booking, forbidden, wrap}
use uban_z.Booking.Role.{is_known}
use uban_z.Booking.Service.{Caller, cancel_booking, publish}
use uban_z.Store.Table.{BookingRow, Db, select_booking, delete_bookings}
use uban_z.Store.World.{
  World, Turn, Fault, refused, reply_lost, query, faulty, run_others, take_turn,
}
use uban_z.Store.Repository.{
  scan_booking, booking_row, deletion, store_ports, get_booking_by_id, delete_by_id, with_id,
}
use uban_z.Store.Repository.Cancellation.{may_cancel, cancelled_row, after_delete}

-- Nobody else's statements run.
abbrev pub IsAlone : List Turn → Type 0
IsAlone turns = All (λ t. t.others ≡ []) turns

-- A statement that was planned with faults has run or has not, and has run if it is answered.
record IsTried {A : Type 0} (m : M Db Error A) (w : World) (r : Result Error A × World)
    : Type 0 where
  effect : (r.1.db ≡ w.db) ⊎ (r.1.db ≡ (m w.db).1)
  answer : (a : A) → r.0 ≡ ok a → ((m w.db).0 ≡ ok a) × (r.1.db ≡ (m w.db).1)
  alone : IsAlone r.1.plan

module _ {A : Type 0} (m : M Db Error A) where
  abbrev Tried : Option Fault → Db → Type 0
  Tried f db =
      (((faulty f m db).1 ≡ db) ⊎ ((faulty f m db).1 ≡ (m db).1))
      × ((a : A) → (faulty f m db).0 ≡ ok a → ((m db).0 ≡ ok a) × ((faulty f m db).1 ≡ (m db).1))

  faulty-Tried : (f : Option Fault) (db : Db) → Tried f db
  faulty-Tried none db = (inr refl, λ a h. (h, refl))
  faulty-Tried (some (refused e)) db = (inl refl, λ a h. absurd (cc h))
  faulty-Tried (some (reply_lost e)) db = (inr refl, λ a h. absurd (cc h))

  take_turn-IsTried :
      (turns : List Turn) (w : World) → IsAlone turns → IsTried m w (take_turn turns m w)
  unfolding run_others
  take_turn-IsTried [] w h = record { effect = inr refl; answer = λ a k. (k, refl); alone = tt }
  take_turn-IsTried (t ∷ turns) w h = rw h.0 (
      let tried = faulty-Tried t.fault w.db in
      record { effect = tried.0; answer = tried.1; alone = h.1 })

  query-IsTried : (w : World) → IsAlone w.plan → IsTried m w (query m w)
  unfolding query
  query-IsTried w h = take_turn-IsTried w.plan w h

get_booking_by_id-IsAlone :
    (id : ℤ) (w : World)
    → IsAlone w.plan
    → ((get_booking_by_id id w).1.db ≡ w.db)
      × IsAlone (get_booking_by_id id w).1.plan
      × ((b : Booking)
          → (get_booking_by_id id w).0 ≡ ok b
          → (row : BookingRow) × (find (with_id id) w.db.bookings ≡ some row)
            × (b ≡ scan_booking row))
unfolding get_booking_by_id select_booking
get_booking_by_id-IsAlone id w h =
    let q = query-IsTried (λ db. (booking_row id db, db)) w h in
    let same : (query (λ db. (booking_row id db, db)) w).1.db ≡ w.db = elim q.effect [
      | inl e ↦ e
      | inr e ↦ e
    ] in
    elim (Result-cases (query (λ db. (booking_row id db, db)) w).0) [
      | inr (x, e) ↦ (ground (arith, same, e), rw e q.alone, λ b k. absurd (ground (arith, e, k)))
      | inl (row, e) ↦ (
        ground (arith, same, e),
        rw e q.alone,
        λ b k. (row, ground (arith, q.answer row e), ground (arith, e, k)),
      )
    ]

delete_by_id-IsAlone :
    (id : ℤ) (w : World)
    → IsAlone w.plan
    → (((delete_by_id id w).1.db ≡ w.db) × ((e : Error) × ((delete_by_id id w).0 ≡ err e)))
      ⊎ ((delete_by_id id w).1.db ≡ after_delete id w.db)
unfolding delete_by_id delete_bookings
delete_by_id-IsAlone id w h =
    let q = query-IsTried (deletion id) w h in
    elim (Result-cases (query (deletion id) w).0) [
      | inl (n, e) ↦ inr (ground (arith, e, q.answer n e))
      | inr (x, e) ↦ elim q.effect [
        | inl f ↦ inl (ground (arith, e, f), (wrap "delete booking" x, ground (arith, e)))
        | inr f ↦ inr (ground (arith, e, f))
      ]
    ]

-- What a cancellation may have come to.
abbrev pub IsCancellation : ℤ → Caller → World → Result Error (Unit {0}) × World → Type 0
IsCancellation id caller w r =
    ((r.1.db ≡ w.db) × ((e : Error) × (r.0 ≡ err e)))
    ⊎ ((b : BookingRow) × (cancelled_row id caller w.db ≡ ok b) × (r.1.db ≡ after_delete id w.db))

-- Over a database with no other client, whichever statements of `CancelBooking` fail or lose their
-- replies: it fails and the tables are as they were, or the caller may cancel the booking of that
-- identifier and exactly its row is deleted.
pub cancel_booking-IsCancellation :
    (id : ℤ) (caller : Caller) (w : World)
    → IsAlone w.plan
    → IsCancellation id caller w (cancel_booking store_ports id caller w)
unfolding cancel_booking publish
cancel_booking-IsCancellation id caller w h =
    let read = get_booking_by_id-IsAlone id w h in
    elim (Bool-cases (is_known caller.role)) [
      | inr k ↦ inl (ground (arith, k), (forbidden, ground (arith, k)))
      | inl k ↦ elim (Result-cases (get_booking_by_id id w).0) [
        | inr (x, g) ↦ inl (ground (arith, k, g, read.0), (x, ground (arith, k, g)))
        | inl (b, g) ↦
            let row = read.2 b g in
            elim (Bool-cases (may_cancel caller row.0)) [
              | inr m ↦
                  inl (
                    ground (arith, k, g, m, row, read.0),
                    (forbidden, ground (arith, k, g, m, row)),
                  )
              | inl m ↦ elim (delete_by_id-IsAlone id (get_booking_by_id id w).1 read.1) [
                | inl (same, (x, d)) ↦ inl (
                  ground (arith, k, g, m, row, read.0, same, d),
                  (x, ground (arith, k, g, m, row, d)),
                )
                | inr gone ↦
                    inr
                      (row.0, ground (arith, k, m, row), ground (arith, k, g, m, row, read.0, gone))
              ]
            ]
      ]
    ]
