-- ===== src/Auth/Users.antt =====
-- internal/adapter/auth/repository/postgres/user_repository.go over the users table of
-- migrations/auth. `faults` says of each statement in turn whether it fails, and with which error.
pub mod Rows
use uban_z.Prelude.{
  ℕ, suc, ℤ, pos, eqb_ℤ, String, Bool, true, false, not, List, [], ◌∷◌, find, any, Option, none,
  some, M, Result, ok, err, ◌==◌, if◌then◌else◌,
}
use uban_z.Auth.Domain.{
  User, Error, no_rows, pg_error, wrap, invalid_role, user_already_exists, user_not_found,
  errors_is, is_valid_role,
}
use uban_z.Auth.Service.{UserRepository}

pub record UserTable : Type 0 where
  pub rows : List User
  pub sequence : ℕ
  pub faults : List (Option Error)

abbrev pub pg_code_unique_violation : String
pg_code_unique_violation = "23505"

abbrev pub pg_code_invalid_text : String
pg_code_invalid_text = "22P02"

unfoldable pub translate_read_error : Error → String → Error
unfolding errors_is
translate_read_error e operation = if errors_is e no_rows then user_not_found else wrap operation e

-- `errors.As`: the code of the PgError in the chain.
abbrev pg_code : Error → Option String
pg_code (wrap p e) = pg_code e
pg_code (pg_error code) = some code
pg_code e = none

unfoldable pub translate_write_error : Error → Error → Error
translate_write_error e duplicate = elim (pg_code e) [
  | none ↦ wrap "write user" e
  | some code ↦
      if code == pg_code_unique_violation
      then duplicate
      else if code == pg_code_invalid_text
      then invalid_role
      else wrap "write user" e
]

-- The enumeration `user_role` is read before the unique index is looked at; the id of a row that
-- is refused by the index is used up.
abbrev pub insert_user : User → UserTable → Result Error ℤ × UserTable
insert_user user t =
    if not (is_valid_role user.role)
    then (err (pg_error pg_code_invalid_text), t)
    else if any (λ row. row.login == user.login) t.rows
    then (err (pg_error pg_code_unique_violation), record t { sequence = suc t.sequence })
    else (
      ok (pos (suc t.sequence)),
      record t {
        rows = record user { id = pos (suc t.sequence) } ∷ t.rows;
        sequence = suc t.sequence;
      },
    )

abbrev pub select_user : (User → Bool) → UserTable → Result Error User × UserTable
select_user test t = elim (find test t.rows) [ none ↦ (err no_rows, t) | some user ↦ (ok user, t) ]

abbrev run_with : {A : Type 0} → List (Option Error) → M UserTable Error A → M UserTable Error A
run_with [] statement t = statement t
run_with (none ∷ fs) statement t = statement (record t { faults = fs })
run_with (some e ∷ fs) statement t = (err e, record t { faults = fs })

-- One statement: the database answers, or fails without having done anything.
abbrev pub run : {A : Type 0} → M UserTable Error A → M UserTable Error A
run statement t = run_with t.faults statement t

abbrev scanned_id : User → Result Error ℤ → Result Error User
scanned_id user (ok id) = ok (record user { id = id })
scanned_id user (err e) = err (translate_write_error e user_already_exists)

unfoldable pub create : User → M UserTable Error User
unfolding translate_write_error
create user t = let r = run (insert_user user) t in (scanned_id user r.0, r.1)

abbrev scanned_user : String → Result Error User → Result Error User
scanned_user operation (ok user) = ok user
scanned_user operation (err e) = err (translate_read_error e operation)

unfoldable pub get_by_login : String → M UserTable Error User
unfolding translate_read_error
get_by_login login t =
    let r = run (select_user λ row. row.login == login) t in
    (scanned_user "get user by login" r.0, r.1)

unfoldable pub get_by_id : ℤ → M UserTable Error User
unfolding translate_read_error
get_by_id id t =
    let r = run (select_user λ row. eqb_ℤ row.id id) t in (scanned_user "get user by id" r.0, r.1)

abbrev pub table_users : UserRepository UserTable
table_users = record { create = create; get_by_login = get_by_login; get_by_id = get_by_id }
