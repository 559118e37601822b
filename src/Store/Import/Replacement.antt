-- ===== src/Store/Import/Replacement.antt =====
-- An import replaces the rows of the import before it, and no others.
use uban_z.Prelude.{
  ℕ, suc, ◌≤◌, ℤ, String, not, List, [], ◌∷◌, filter, Option, none, ◌≡◌, ◌∙◌, ap, refl, arith,
  Result, err, inl, inr, Option-cases, Result-cases,
}
use uban_z.Booking.Domain.{Error}
use uban_z.Parser.Domain.{RoomSelector, ScheduleSlot, ImportStats}
use uban_z.Store.Table.{
  BookingRow, Db, is_parsed, insert_or_skip, upsert_room, broken_constraint, delete_bookings,
  delete_stale_rooms,
}
use uban_z.Store.Table.Valid.{IsValid, IdsBelow-mono, RoomIdsBelow-mono}
use uban_z.Store.Table.Insert.{insert_or_skip-IsValid}
use uban_z.Store.Table.Delete.{delete_bookings-IsValid, delete_stale_rooms-IsValid}
use uban_z.Store.Table.Upsert.{upsert_room-IsValid, upsert_room_rest}
use uban_z.Store.World.{
  World, Tx, transact, begin_func, rolled_back, end_tx, faults_of, run_others, query,
}
use uban_z.Store.Repository.Safety.{Keeps, query-Keeps}
use uban_z.Store.Import.{
  replace_body, replace_parsed_schedule, slot_row, delete_parsed, delete_stale,
}
use uban_z.Store.Import.Effects.{replace_body-KeepsTx}

abbrev pub unparsed : List BookingRow → List BookingRow
unparsed = filter (λ b. not (is_parsed b))

-- The tables after some steps of an import that began with the tables `old`.
record Follows (old db : Db) : Type 0 where
  valid : IsValid db
  rooms_le : old.room_seq ≤ db.room_seq
  bookings_le : old.booking_seq ≤ db.booking_seq
  users : unparsed db.bookings ≡ unparsed old.bookings

insert_or_skip_rest :
    (id : ℕ) (slot : ScheduleSlot) (db : Db)
    → (unparsed (insert_or_skip (slot_row id slot) db).1.bookings ≡ unparsed db.bookings)
      × ((insert_or_skip (slot_row id slot) db).1.booking_seq ≡ suc db.booking_seq)
      × ((insert_or_skip (slot_row id slot) db).1.room_seq ≡ db.room_seq)
unfolding insert_or_skip
insert_or_skip_rest id slot db = elim (Option-cases (broken_constraint (slot_row id slot) db)) [
  | inl e ↦ rw (e, insert_or_skip) (refl, refl, refl)
  | inr (x, e) ↦ rw (e, insert_or_skip) (refl, refl, refl)
]

unparsed-unparsed : (bs : List BookingRow) → unparsed (unparsed bs) ≡ unparsed bs
unparsed-unparsed [] = refl
unparsed-unparsed (b ∷ bs) = ground (arith, unparsed-unparsed bs)

module _ (old : Db) where
  upsert-Follows :
      (name building : String) (capacity : ℤ) (d : Db)
      → Follows old d
      → Follows old (upsert_room name building capacity d).1
  upsert-Follows name building capacity d f =
      let rest = upsert_room_rest name building capacity d in
      record {
        valid = upsert_room-IsValid name building capacity d f.valid;
        rooms_le = omega arith;
        bookings_le = omega arith;
        users = ap unparsed rest.0 ∙ f.users;
      }

  insert-Follows :
      (id : ℕ) (slot : ScheduleSlot) (d : Db)
      → Follows old d
      → Follows old (insert_or_skip (slot_row id slot) d).1
  insert-Follows id slot d f =
      let rest = insert_or_skip_rest id slot d in
      record {
        valid = insert_or_skip-IsValid (slot_row id slot) d f.valid;
        rooms_le = omega arith;
        bookings_le = omega arith;
        users = rest.0 ∙ f.users;
      }

  delete_parsed-Follows : (d : Db) → Follows old d → Follows old (delete_parsed d).1
  unfolding delete_bookings
  delete_parsed-Follows d f = record {
    valid = delete_bookings-IsValid is_parsed d f.valid;
    rooms_le = f.rooms_le;
    bookings_le = f.bookings_le;
    users = unparsed-unparsed d.bookings ∙ f.users;
  }

  delete_stale-Follows : (d : Db) → Follows old d → Follows old (delete_stale d).1
  unfolding delete_stale_rooms
  delete_stale-Follows d f = record {
    valid = delete_stale_rooms-IsValid d f.valid;
    rooms_le = f.rooms_le;
    bookings_le = f.bookings_le;
    users = f.users;
  }

  replace_body-Follows :
      (rooms : List RoomSelector) (slots : List ScheduleSlot) (t : Tx)
      → Follows old t.db
      → Follows old (replace_body rooms slots t).1.db
  replace_body-Follows =
      replace_body-KeepsTx (Follows old) upsert-Follows insert-Follows delete_parsed-Follows
        delete_stale-Follows

rolled_back-IsValid : (old new : Db) → IsValid old → Follows old new → IsValid (rolled_back old new)
rolled_back-IsValid old new v f = record {
  sound = v.sound;
  apart = v.apart;
  booking_ids = IdsBelow-mono old.bookings (omega (arith, f.bookings_le)) v.booking_ids;
  room_ids = RoomIdsBelow-mono old.rooms (omega (arith, f.rooms_le)) v.room_ids;
  distinct = v.distinct;
  capacities = v.capacities;
}

end_tx-IsValid :
    (old : Db) (r : Result Error ImportStats × Tx)
    → IsValid old
    → Follows old r.1.db
    → IsValid (end_tx old r).1
end_tx-IsValid old r v f = elim (Result-cases r.0) [
  | inl (a, e) ↦ rw e f.valid
  | inr (x, e) ↦ rw e (rolled_back-IsValid old r.1.db v f)
]

-- From tables that satisfy every constraint, `ReplaceParsedSchedule` leaves tables that satisfy
-- them, whatever other clients do before it, whichever statement of its transaction fails, and
-- whether or not the commit succeeds.
pub replace_parsed_schedule-Keeps :
    (rooms : List RoomSelector) (slots : List ScheduleSlot)
    → Keeps (replace_parsed_schedule rooms slots)
unfolding replace_parsed_schedule begin_func transact
replace_parsed_schedule-Keeps rooms slots w v =
    query-Keeps _
      (λ d u.
        end_tx-IsValid d
          (replace_body rooms slots (record { db = d; tx_faults = faults_of w.plan })) u
          (replace_body-Follows d rooms slots (record { db = d; tx_faults = faults_of w.plan })
            (record {
              valid = u;
              rooms_le = omega arith;
              bookings_le = omega arith;
              users = refl;
            })))
      w v

-- The world with no other client, where the statements of one transaction meet given errors.
abbrev pub with_tx_faults : List (Option Error) → World → World
with_tx_faults faults w = record w {
  plan = record { others = []; tx_faults = faults; fault = none } ∷ [];
}

end_tx_users :
    (old : Db) (r : Result Error ImportStats × Tx)
    → Follows old r.1.db
    → (unparsed (end_tx old r).1.bookings ≡ unparsed old.bookings)
end_tx_users old r f = elim (Result-cases r.0) [ inl (a, e) ↦ rw e f.users | inr (x, e) ↦ rw e ]

-- With no other client, from valid tables and whichever statements of the transaction fail,
-- `ReplaceParsedSchedule` leaves the bookings that no import made as they were.
pub replace_parsed_schedule-unparsed :
    (rooms : List RoomSelector) (slots : List ScheduleSlot) (faults : List (Option Error))
    (w : World)
    → IsValid w.db
    → unparsed (replace_parsed_schedule rooms slots (with_tx_faults faults w)).1.db.bookings
      ≡ unparsed w.db.bookings
unfolding replace_parsed_schedule begin_func transact query run_others
replace_parsed_schedule-unparsed rooms slots faults w v =
    end_tx_users w.db (replace_body rooms slots (record { db = w.db; tx_faults = faults })) (
      replace_body-Follows w.db rooms slots (record { db = w.db; tx_faults = faults })
        (record { valid = v; rooms_le = omega arith; bookings_le = omega arith; users = refl }))

-- With no other client, a `ReplaceParsedSchedule` that fails, at whichever statement, leaves all
-- rooms and bookings as they were.
pub replace_parsed_schedule-failed :
    (rooms : List RoomSelector) (slots : List ScheduleSlot) (faults : List (Option Error))
    (w s : World) (e : Error)
    → replace_parsed_schedule rooms slots (with_tx_faults faults w) ≡ (err e, s)
    → (s.db.rooms ≡ w.db.rooms) × (s.db.bookings ≡ w.db.bookings)
unfolding replace_parsed_schedule begin_func transact query run_others
replace_parsed_schedule-failed rooms slots faults w s e h = ground arith
