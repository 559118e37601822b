-- ===== src/Store/World.antt =====
-- What the booking process acts on: the tables, the broker and the clock. Other clients of the
-- database act between our statements, and PostgreSQL may fail any statement of ours: `plan` says of
-- each statement in turn what comes before it and what becomes of it. An empty plan is a quiet
-- database that answers everything.
use uban_z.Prelude.{ℤ, pos, eqb_ℤ, String, List, [], ◌∷◌, Option, none, some, Result, ok, err, M}
use uban_z.Clock.{Time}
use uban_z.Booking.Domain.{Error}
use uban_z.Booking.Ports.{Event}
use uban_z.Store.Table.{
  BookingRow, Db, insert_booking, delete_bookings, is_parsed, upsert_room, delete_stale_rooms,
}

-- `refused` has no effect; of `reply_lost` the effect stays and only the answer is missing.
pub data Fault : Type 0 where
  refused : Error → Fault
  reply_lost : Error → Fault

-- A statement of another client.
pub data Statement : Type 0 where
  inserts : BookingRow → Statement
  deletes : ℤ → Statement
  deletes_parsed deletes_stale_rooms : Statement
  upserts : (name building : String) (capacity : ℤ) → Statement

-- `tx_faults` are the errors that the statements of a transaction meet, one for each.
pub record Turn : Type 0 where
  pub others : List Statement
  pub tx_faults : List (Option Error)
  pub fault : Option Fault

pub record World : Type 0 where
  pub db : Db
  pub plan : List Turn
  pub broker_error : Option Error
  pub sent : List Event
  pub clock : Time

unfoldable pub run_statement : Statement → Db → Db
run_statement (inserts b) db = (insert_booking b db).1
run_statement (deletes id) db = (delete_bookings (λ b. eqb_ℤ (pos b.id) id) db).1
run_statement deletes_parsed db = (delete_bookings is_parsed db).1
run_statement deletes_stale_rooms db = delete_stale_rooms db
run_statement (upserts name building capacity) db = (upsert_room name building capacity db).1

unfoldable pub run_others : List Statement → Db → Db
unfolding run_statement
run_others [] db = db
run_others (s ∷ ss) db = run_others ss (run_statement s db)

abbrev pub faulty : {A : Type 0} → Option Fault → M Db Error A → M Db Error A
faulty none statement db = statement db
faulty (some (refused e)) statement db = (err e, db)
faulty (some (reply_lost e)) statement db = (err e, (statement db).1)

-- One statement of ours, at the head of the plan.
abbrev pub take_turn : {A : Type 0} → List Turn → M Db Error A → World → Result Error A × World
take_turn [] statement w = ((statement w.db).0, record w { db = (statement w.db).1; plan = [] })
take_turn (t ∷ ts) statement w =
    let r = faulty t.fault statement (run_others t.others w.db) in
    (r.0, record w { db = r.1; plan = ts })

unfoldable pub query : {A : Type 0} → M Db Error A → M World Error A
query statement w = take_turn w.plan statement w

-- Inside a transaction: its own view of the tables, and the errors to come.
pub record Tx : Type 0 where
  pub db : Db
  pub tx_faults : List (Option Error)

abbrev pub run_tx : {A : Type 0} → List (Option Error) → M Db Error A → Db → Result Error A × Tx
run_tx (some e ∷ fs) statement db = (err e, record { db = db; tx_faults = fs })
run_tx (none ∷ fs) statement db =
    ((statement db).0, record { db = (statement db).1; tx_faults = fs })
run_tx [] statement db = ((statement db).0, record { db = (statement db).1; tx_faults = [] })

-- One statement of a transaction.
unfoldable pub exec : {A : Type 0} → M Db Error A → M Tx Error A
exec statement t = run_tx t.tx_faults statement t.db

-- A rollback restores the tables; the sequences stay where they are.
abbrev pub rolled_back : Db → Db → Db
rolled_back old new = record old { room_seq = new.room_seq; booking_seq = new.booking_seq }

abbrev pub end_tx : {A : Type 0} → Db → Result Error A × Tx → Result Error A × Db
end_tx old r = elim r.0 [ ok a ↦ (ok a, r.1.db) | err e ↦ (err e, rolled_back old r.1.db) ]

-- `pgx.BeginFunc`: the body's changes are kept if it succeeds and taken back if it fails.
unfoldable pub transact : {A : Type 0} → M Tx Error A → List (Option Error) → M Db Error A
transact body faults db = end_tx db (body (record { db = db; tx_faults = faults }))

abbrev pub faults_of : List Turn → List (Option Error)
faults_of [] = []
faults_of (t ∷ ts) = t.tx_faults

-- A transaction is one step for the other clients; a fault of the turn befalls its commit.
unfoldable pub begin_func : {A : Type 0} → M Tx Error A → M World Error A
begin_func body w = query (transact body (faults_of w.plan)) w

-- A statement that only reads.
abbrev pub ask : {A : Type 0} → (Db → Result Error A) → M World Error A
ask read = query (λ db. (read db, db))

abbrev pub map_error : {A : Type 0} → (Error → Error) → Result Error A → Result Error A
map_error f (ok a) = ok a
map_error f (err e) = err (f e)

-- `if err != nil { return ..., f(err) }` after a call.
abbrev pub on_error : {A : Type 0} → (Error → Error) → M World Error A → M World Error A
on_error f m w = (map_error f (m w).0, (m w).1)

-- The same world with nobody else in it, where every statement is answered.
abbrev pub quiet : World → World
quiet w = record w { plan = [] }
