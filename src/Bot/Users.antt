-- ===== src/Bot/Users.antt =====
-- timetable-homework-tgbot/internal/infrastracture/repositories/user_repository.go.
pub mod Keys
pub mod Login
pub mod Roles
use uban_z.Prelude.{
  ℕ, ◌+◌, ◌-◌, ℤ, negsuc, eqb, eqb_ℤ, String, Bool, true, false, not, ◌&&◌, List, [], ◌∷◌, ◌++◌,
  any, find, filter, map, Option, none, some, ◌==◌, Result, ok, err, M, ◌>>=◌, ◌>>◌, pure, lift,
  trim_space, if◌then◌else◌,
}
use uban_z.Bot.Tables.{Account, GroupRow, Db, sql_equal, has_user, holds, is_bound}
use uban_z.Bot.Session.{
  Error, no_rows, constraint, message, wrapped, Session, exec, ask, change, on_error, one_row,
  begin_tx,
}

abbrev pub role_guest : String
role_guest = ""

abbrev pub role_student : String
role_student = "student"

abbrev pub role_teacher : String
role_teacher = "teacher"

-- -300000000000000 and -200000000000000.
abbrev pub student_base : ℕ
student_base = 300_000_000_000_000

abbrev pub teacher_base : ℕ
teacher_base = 200_000_000_000_000

-- `-base - id`.
abbrev pub placeholder : ℕ → ℕ → ℤ
placeholder base id = negsuc (base + id - 1)

-- INSERT INTO users (tg_id) VALUES ($1) ON CONFLICT DO NOTHING.
unfoldable pub add_user : ℤ → List ℤ → List ℤ
add_user u users = if has_user u users then users else u ∷ users

module _ {D : Type 0} where
  -- INSERT INTO users (tg_id) SELECT -base - id ... WHERE user_id = $1 ON CONFLICT DO NOTHING.
  unfoldable pub add_placeholders : ℕ → ℤ → List (Account D) → List ℤ → List ℤ
  unfolding add_user
  add_placeholders base u [] users = users
  add_placeholders base u (a ∷ rows) users =
      let rest = add_placeholders base u rows users in
      if holds u a then add_user (placeholder base a.id) rest else rest

  abbrev pub rebind_row : (Account D → Bool) → (Account D → ℤ) → Account D → Account D
  rebind_row test new a = if test a then record a { user_id = new a } else a

  -- Whether a new user is that of a row which the update leaves alone.
  abbrev is_taken : (Account D → Bool) → (Account D → ℤ) → List (Account D) → Bool
  is_taken test new rows = any (λ a. test a && any (λ b. not (test b) && holds (new a) b) rows) rows

  abbrev is_unknown : (Account D → Bool) → (Account D → ℤ) → List ℤ → List (Account D) → Bool
  is_unknown test new users rows = any (λ a. test a && not (has_user (new a) users)) rows

  -- UPDATE ... SET user_id = ... WHERE the test holds, under UNIQUE (user_id) and the foreign key.
  unfoldable pub rebind :
      (Account D → Bool)
      → (Account D → ℤ)
      → List ℤ
      → List (Account D)
      → Result Error (List (Account D))
  rebind test new users rows =
      if is_taken test new rows
      then err (constraint "user_id_key")
      else if is_unknown test new users rows
      then err (constraint "user_id_fkey")
      else ok (map (rebind_row test new) rows)

  -- SELECT id ... WHERE login = $1 AND password = $2.
  unfoldable pub account_of : String → String → List (Account D) → Option (Account D)
  account_of login password rows =
      find (λ a. sql_equal a.login login && sql_equal a.password password) rows

-- UPDATE students and UPDATE teachers.
abbrev pub set_students : Result Error (List (Account ℕ)) → Db → Result Error (Unit {0}) × Db
set_students (ok rows) db = (ok tt, record db { students = rows })
set_students (err e) db = (err e, db)

abbrev pub set_teachers :
    Result Error (List (Account (Option String))) → Db → Result Error (Unit {0}) × Db
set_teachers (ok rows) db = (ok tt, record db { teachers = rows })
set_teachers (err e) db = (err e, db)

unfoldable pub unbind_student_rows : ℤ → M Session Error (Unit {0})
unfolding exec rebind add_placeholders
unbind_student_rows u =
    change (λ db. record db { users = add_placeholders student_base u db.students db.users })
    >> exec λ db.
      set_students (rebind (holds u) (λ a. placeholder student_base a.id) db.users db.students) db

unfoldable pub unbind_teacher_rows : ℤ → M Session Error (Unit {0})
unfolding exec rebind add_placeholders
unbind_teacher_rows u =
    change (λ db. record db { users = add_placeholders teacher_base u db.teachers db.users })
    >> exec λ db.
      set_teachers (rebind (holds u) (λ a. placeholder teacher_base a.id) db.users db.teachers) db

abbrev pub insert_user : ℤ → M Session Error (Unit {0})
insert_user u = change (λ db. record db { users = add_user u db.users })

abbrev pub has_id : {D : Type 0} → ℕ → Account D → Bool
has_id id a = eqb a.id id

-- `if errors.Is(err, sql.ErrNoRows) { return invalid }; return fmt.Errorf(operation, err)`.
abbrev pub login_error : String → String → Error → Error
login_error invalid operation no_rows = message invalid
login_error invalid operation e = wrapped operation e

abbrev pub check_account : {A : Type 0} → String → String → Result Error A → Result Error A
check_account invalid operation (ok a) = ok a
check_account invalid operation (err e) = err (login_error invalid operation e)

abbrev pub checked : {A : Type 0} → String → String → M Session Error A → M Session Error A
checked invalid operation m s = (check_account invalid operation (m s).0, (m s).1)

-- The first query of the sign-in, and its last statement.
abbrev pub student_account : String → String → M Session Error (Account ℕ)
student_account login password =
    checked "invalid student credentials" "LoginStudent account"
      (ask (λ db. one_row (account_of (trim_space login) password db.students)))

abbrev pub bind_student : ℤ → ℕ → M Session Error (Unit {0})
bind_student u id = exec (λ db. set_students (rebind (has_id id) (λ _. u) db.users db.students) db)

unfoldable pub login_student : ℤ → String → String → M Session Error (Unit {0})
unfolding exec begin_tx account_of unbind_student_rows unbind_teacher_rows rebind add_user
login_student u login password = begin_tx "LoginStudent begin" do
  account ← student_account login password
  on_error "LoginStudent user" (insert_user u)
  on_error "LoginStudent unbind teacher" (unbind_teacher_rows u)
  on_error "LoginStudent unbind student" (unbind_student_rows u)
  on_error "LoginStudent bind" (bind_student u account.id)

-- The first query of the sign-in, and its last statement.
abbrev pub teacher_account : String → String → M Session Error (Account (Option String))
teacher_account login password =
    checked "invalid teacher credentials" "LoginTeacher account"
      (ask (λ db. one_row (account_of (trim_space login) password db.teachers)))

abbrev pub bind_teacher : ℤ → ℕ → M Session Error (Unit {0})
bind_teacher u id = exec (λ db. set_teachers (rebind (has_id id) (λ _. u) db.users db.teachers) db)

unfoldable pub login_teacher : ℤ → String → String → M Session Error (Unit {0})
unfolding exec begin_tx account_of unbind_student_rows unbind_teacher_rows rebind add_user
login_teacher u login password = begin_tx "LoginTeacher begin" do
  account ← teacher_account login password
  on_error "LoginTeacher user" (insert_user u)
  on_error "LoginTeacher unbind previous teacher" (unbind_teacher_rows u)
  on_error "LoginTeacher unbind student" (unbind_student_rows u)
  on_error "LoginTeacher bind" (bind_teacher u account.id)

unfoldable pub leave : ℤ → M Session Error (Unit {0})
unfolding begin_tx unbind_student_rows unbind_teacher_rows
leave u = begin_tx "Leave begin" do
  on_error "Leave unbind student" (unbind_student_rows u)
  on_error "Leave unbind teacher" (unbind_teacher_rows u)

unfoldable pub get_role : ℤ → M Session Error String
unfolding exec
get_role u = do
  student ← on_error "GetRole student query" (ask (λ db. ok (is_bound u db.students)))
  if student then pure role_student else do
    teacher ← on_error "GetRole teacher query" (ask (λ db. ok (is_bound u db.teachers)))
    pure (if teacher then role_teacher else role_guest)

-- SELECT g.group_name FROM students s JOIN groups g ON g.id = s.group_id WHERE s.user_id = $1.
unfoldable pub group_of : ℤ → List (Account ℕ) → List GroupRow → Option String
group_of u [] groups = none
group_of u (s ∷ students) groups =
    let rest = group_of u students groups in
    if holds u s
    then elim (find (λ g. eqb g.id s.about) groups) [ some g ↦ some g.group_name | none ↦ rest ]
    else rest

abbrev text_or : Option String → String
text_or none = ""
text_or (some s) = s

-- No row is no error: the group is then empty.
unfoldable pub get_group : ℤ → M Session Error String
unfolding exec group_of
get_group u =
    on_error "GetGroup query" (ask (λ db. ok (text_or (group_of u db.students db.groups))))
