-- ===== src/Bot/Session.antt =====
-- How the bot's repositories use the database: `faults` says of each statement in turn, of BEGIN
-- and COMMIT too, whether it fails. A call's statements are not mixed with those of another call.
use uban_z.Prelude.{
  ◌≡◌, ap, then_run, String, List, [], ◌∷◌, Option, none, some, Result, ok, err, M, ◌>>=◌, ◌>>◌,
}
use uban_z.Bot.Tables.{Db}

-- `database_error` is what the driver reports; `wrapped` is `fmt.Errorf` with `%w`.
pub data Error : Type 0 where
  no_rows : Error
  constraint : String → Error
  database_error : String → Error
  message : String → Error
  wrapped : String → Error → Error

-- `refused` has no effect; of `reply_lost` the effect stays and only the answer is missing.
pub data Fault : Type 0 where
  refused : Error → Fault
  reply_lost : Error → Fault

pub record Session : Type 0 where
  pub db : Db
  pub faults : List (Option Fault)

-- A database that answers everything.
abbrev pub calm : Db → Session
calm db = record { db = db; faults = [] }

abbrev faulty : {A : Type 0} → Option Fault → M Db Error A → M Db Error A
faulty none statement db = statement db
faulty (some (refused e)) statement db = (err e, db)
faulty (some (reply_lost e)) statement db = (err e, (statement db).1)

abbrev take_fault : {A : Type 0} → List (Option Fault) → M Db Error A → M Session Error A
take_fault [] statement s = ((statement s.db).0, record { db = (statement s.db).1; faults = [] })
take_fault (f ∷ fs) statement s =
    let r = faulty f statement s.db in (r.0, record { db = r.1; faults = fs })

unfoldable pub exec : {A : Type 0} → M Db Error A → M Session Error A
exec statement s = take_fault s.faults statement s

-- A statement that only reads.
abbrev pub ask : {A : Type 0} → (Db → Result Error A) → M Session Error A
ask read = exec (λ db. (read db, db))

-- A statement that cannot break a constraint.
abbrev pub change : (Db → Db) → M Session Error (Unit {0})
change f = exec (λ db. (ok tt, f db))

abbrev pub wrap_error : {A : Type 0} → String → Result Error A → Result Error A
wrap_error operation (ok a) = ok a
wrap_error operation (err e) = err (wrapped operation e)

-- `if err != nil { return fmt.Errorf(operation + ": %w", err) }` after a call.
abbrev pub on_error : {A : Type 0} → String → M Session Error A → M Session Error A
on_error operation m s = (wrap_error operation (m s).0, (m s).1)

-- `QueryRow` and `Scan`.
abbrev pub one_row : {A : Type 0} → Option A → Result Error A
one_row none = err no_rows
one_row (some a) = ok a

-- A rollback restores the tables; the sequences stay where they are.
abbrev pub rolled_back : Db → Db → Db
rolled_back old new = record old {
  group_seq = new.group_seq;
  teacher_seq = new.teacher_seq;
  room_seq = new.room_seq;
  lesson_seq = new.lesson_seq;
  homework_seq = new.homework_seq;
  notification_seq = new.notification_seq;
}

abbrev undone : Db → Session → Session
undone old s = record s { db = rolled_back old s.db }

-- COMMIT. A commit that is refused keeps nothing; one whose answer is lost has kept the changes.
abbrev commit : Db → List (Option Fault) → Session → Result Error (Unit {0}) × Session
commit old [] s = (ok tt, s)
commit old (none ∷ fs) s = (ok tt, record s { faults = fs })
commit old (some (refused e) ∷ fs) s = (err e, undone old (record s { faults = fs }))
commit old (some (reply_lost e) ∷ fs) s = (err e, record s { faults = fs })

abbrev end_tx : Db → Result Error (Unit {0}) × Session → Result Error (Unit {0}) × Session
end_tx old r = elim r.0 [ ok a ↦ commit old r.1.faults r.1 | err e ↦ (err e, undone old r.1) ]

-- `BeginTx`, the body, `return tx.Commit()`, and the deferred `tx.Rollback()`, which does nothing
-- after a commit.
unfoldable pub transaction : M Session Error (Unit {0}) → M Session Error (Unit {0})
transaction body s = end_tx s.db (body s)

-- `BeginTx` itself may fail.
unfoldable pub begin_tx : String → M Session Error (Unit {0}) → M Session Error (Unit {0})
unfolding exec transaction
begin_tx operation body = on_error operation (change (λ db. db)) >> transaction body

-- What the calls do where they succeed.
module _ {A : Type 0} (m : M Session Error A) (s : Session) {s' : Session} {a : A}
    (done : m s ≡ (ok a, s')) where
  pub on_error-eq-ok : (operation : String) → on_error operation m s ≡ (ok a, s')
  on_error-eq-ok operation = ap (λ r. (wrap_error operation r.0, r.1)) done

  pub >>=-eq-ok : {B : Type 0} (f : A → M Session Error B) → (m >>= f) s ≡ f a s'
  >>=-eq-ok f = ap (λ r. then_run f r.0 r.1) done

pub begin_tx-calm :
    (operation : String) (body : M Session Error (Unit {0})) (db : Db) {db' : Db}
    → body (calm db) ≡ (ok tt, calm db')
    → begin_tx operation body (calm db) ≡ (ok tt, calm db')
unfolding begin_tx exec transaction
begin_tx-calm operation body db h = ap (end_tx db) h
