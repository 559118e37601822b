-- ===== src/Store/Table/Insert.antt =====
-- INSERT INTO bookings keeps the tables valid.
use uban_z.Prelude.{
  suc, eqb_ℤ_iff, false, ◌∷◌, any, All-of_any-eq-false, none, ◌≡◌, inl, inr, arith, Option-cases,
}
use uban_z.Booking.Role.{is_known, rank}
use uban_z.Store.Table.{
  BookingRow, Db, clashes, is_listed_role, broken_constraint, numbered, insert_booking,
  insert_or_skip,
}
use uban_z.Store.Table.Valid.{IdsBelow-mono, Disjoint, IsSound, IsValid}

-- The roles that the table's check lists are the roles that the domain knows.
pub is_listed_role-is_known : (r : _) → is_listed_role r ≡ is_known r
unfolding is_known rank
is_listed_role-is_known r = ground arith

Disjoint-of_not-clashes : (a b : BookingRow) → clashes a b ≡ false → Disjoint a b
Disjoint-of_not-clashes a b h e = ground (arith, eqb_ℤ_iff a.room_id b.room_id)

-- A row breaks no constraint exactly when it is sound and clashes with no other row.
broken_constraint-eq-none :
    (b : BookingRow) (db : Db)
    → broken_constraint b db ≡ none
    → IsSound db.rooms b × (any (clashes b) db.bookings ≡ false)
unfolding broken_constraint
broken_constraint-eq-none b db h = ground (arith, is_listed_role-is_known b.creator_role)

module _ (b : BookingRow) (db : Db) (v : IsValid db) where
  -- A new row that breaks no constraint.
  inserted-IsValid :
      broken_constraint b db ≡ none
      → IsValid
          (record db { bookings = numbered b db ∷ db.bookings; booking_seq = suc db.booking_seq })
  inserted-IsValid e = record {
    sound = ((broken_constraint-eq-none b db e).0, v.sound);
    apart = (
      All-of_any-eq-false (Disjoint (numbered b db)) (clashes b)
          (λ c h. Disjoint-of_not-clashes b c h) db.bookings (broken_constraint-eq-none b db e).1,
      v.apart,
    );
    booking_ids = (omega arith, v.booking_ids);
    room_ids = v.room_ids;
    distinct = v.distinct;
    capacities = v.capacities;
  }

  -- A number of the sequence that no row took.
  skipped-IsValid : IsValid (record db { booking_seq = suc db.booking_seq })
  skipped-IsValid = record {
    sound = v.sound;
    apart = v.apart;
    booking_ids = IdsBelow-mono db.bookings (omega arith) v.booking_ids;
    room_ids = v.room_ids;
    distinct = v.distinct;
    capacities = v.capacities;
  }

pub insert_booking-IsValid :
    (b : BookingRow) (db : Db) → IsValid db → IsValid (insert_booking b db).1
unfolding insert_booking
insert_booking-IsValid b db v = elim (Option-cases (broken_constraint b db)) [
  | inl e ↦ rw (e, insert_booking) (inserted-IsValid b db v e)
  | inr (x, e) ↦ rw (e, insert_booking) (skipped-IsValid b db v)
]

pub insert_or_skip-IsValid :
    (b : BookingRow) (db : Db) → IsValid db → IsValid (insert_or_skip b db).1
unfolding insert_or_skip
insert_or_skip-IsValid b db v = elim (Option-cases (broken_constraint b db)) [
  | inl e ↦ rw (e, insert_or_skip) (inserted-IsValid b db v e)
  | inr (x, e) ↦ rw (e, insert_or_skip) (skipped-IsValid b db v)
]
