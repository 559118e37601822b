-- ===== src/Bot/Users/Login.antt =====
-- What signing in and leaving do to the tables when every statement is answered.
use uban_z.Prelude.{
  ℕ, ℤ, pos, String, true, List, map, Option, some, ok, ◌≡◌, ◌≢◌, ◌∙◌, arith, M, ◌>>◌, ◌>>=◌,
  trim_space,
}
use uban_z.Bot.Tables.{Account, Db, has_user}
use uban_z.Bot.Session.{
  Error, Session, calm, exec, begin_tx-calm, on_error, on_error-eq-ok, >>=-eq-ok,
}
use uban_z.Bot.Users.{
  placeholder, add_user, add_placeholders, account_of, student_base, teacher_base, login_student,
  insert_user, student_account, teacher_account, bind_student, bind_teacher, login_teacher, leave,
  unbind_student_rows, unbind_teacher_rows,
}
use uban_z.Bot.Users.Keys.{
  IsKeyed, release, give, rebind-release, release-IsKeyed, unbound-release, rebind-give,
  give-IsKeyed, has_user-add_user_self, has_user-add_placeholders_old,
}

pub record IsSound (db : Db) : Type 0 where
  pub students : IsKeyed student_base db.students
  pub teachers : IsKeyed teacher_base db.teachers

-- The tables once a user holds no row.
abbrev pub with_placeholders : ℤ → Db → List ℤ → List ℤ
with_placeholders u db users =
    add_placeholders student_base u db.students (add_placeholders teacher_base u db.teachers users)

abbrev pub prepared : ℤ → Db → Db
prepared u db = record db {
  users = with_placeholders u db (add_user u db.users);
  teachers = map (release teacher_base u) db.teachers;
  students = map (release student_base u) db.students;
}

abbrev pub student_in : ℤ → ℕ → Db → Db
student_in u id db = record db {
  users = with_placeholders u db (add_user u db.users);
  teachers = map (release teacher_base u) db.teachers;
  students = map (give id u) (map (release student_base u) db.students);
}

abbrev pub teacher_in : ℤ → ℕ → Db → Db
teacher_in u id db = record db {
  users = with_placeholders u db (add_user u db.users);
  teachers = map (give id u) (map (release teacher_base u) db.teachers);
  students = map (release student_base u) db.students;
}

abbrev pub students_left : ℤ → Db → Db
students_left u db = record db {
  users = add_placeholders student_base u db.students db.users;
  students = map (release student_base u) db.students;
}

abbrev pub teachers_left : ℤ → Db → Db
teachers_left u db = record db {
  users = add_placeholders teacher_base u db.teachers db.users;
  teachers = map (release teacher_base u) db.teachers;
}

abbrev pub left : ℤ → Db → Db
left u db = record db {
  users =
      add_placeholders teacher_base u db.teachers
        (add_placeholders student_base u db.students db.users);
  teachers = map (release teacher_base u) db.teachers;
  students = map (release student_base u) db.students;
}

pub ordinary : (base n : ℕ) (k : ℕ) → pos n ≢ placeholder base k
ordinary base n k e = ground arith

pub unbind_students-calm :
    (u : ℤ) (db : Db)
    → IsKeyed student_base db.students
    → unbind_student_rows u (calm db) ≡ (ok tt, calm (students_left u db))
unfolding unbind_student_rows exec
unbind_students-calm u db keyed = rw (rebind-release (omega arith) keyed u db.users)

pub unbind_teachers-calm :
    (u : ℤ) (db : Db)
    → IsKeyed teacher_base db.teachers
    → unbind_teacher_rows u (calm db) ≡ (ok tt, calm (teachers_left u db))
unfolding unbind_teacher_rows exec
unbind_teachers-calm u db keyed = rw (rebind-release (omega arith) keyed u db.users)

module _ {db : Db} (sound : IsSound db) (n : ℕ) where
  abbrev user : ℤ
  user = pos n

  entered : has_user user (with_placeholders user db (add_user user db.users)) ≡ true
  entered = has_user-add_placeholders_old student_base user user db.students _ (
      has_user-add_placeholders_old teacher_base user user db.teachers _
        (has_user-add_user_self user db.users))

  -- The user is entered, and bound to nobody any more.
  prepare-calm :
      (user_error teacher_error student_error : String) (bind : M Session Error (Unit {0}))
      → (do
        on_error user_error (insert_user user)
        on_error teacher_error (unbind_teacher_rows user)
        on_error student_error (unbind_student_rows user)
        bind)
          (calm db)
        ≡ bind (calm (prepared user db))
  unfolding exec
  prepare-calm user_error teacher_error student_error bind =
      let db1 = record db { users = add_user user db.users } in
      let teachers = unbind_teachers-calm user db1 sound.teachers in
      >>=-eq-ok (on_error teacher_error (unbind_teacher_rows user)) (calm db1)
        (on_error-eq-ok (unbind_teacher_rows user) (calm db1) teachers teacher_error)
        (λ _. on_error student_error (unbind_student_rows user) >> bind)
      ∙ >>=-eq-ok (on_error student_error (unbind_student_rows user))
          (calm (teachers_left user db1))
          (on_error-eq-ok (unbind_student_rows user) (calm (teachers_left user db1))
            (unbind_students-calm user _ sound.students) student_error)
          (λ _. bind)

  module _ (login password : String) where
    bind_student-calm :
        (id : ℕ)
        → bind_student user id (calm (prepared user db)) ≡ (ok tt, calm (student_in user id db))
    unfolding exec
    bind_student-calm id = rw (
        rebind-give (omega arith) (release-IsKeyed (omega arith) sound.students user) user
          (with_placeholders user db (add_user user db.users)) id
          (unbound-release (omega arith) sound.students user (ordinary student_base n))
          (ordinary student_base n) entered)

    pub login_student-calm :
        {s : Account ℕ}
        → account_of (trim_space login) password db.students ≡ some s
        → login_student user login password (calm db) ≡ (ok tt, calm (student_in user s.id db))
    unfolding login_student
    login_student-calm {s} found =
        begin_tx-calm "LoginStudent begin" (student_account login password >>= rest) db (
          >>=-eq-ok (student_account login password) (calm db) (asked found) rest
          ∙ prepare-calm "LoginStudent user" "LoginStudent unbind teacher"
              "LoginStudent unbind student" (bound s)
          ∙ on_error-eq-ok (bind_student user s.id) (calm (prepared user db))
              (bind_student-calm s.id) "LoginStudent bind")
      where
        bound : Account ℕ → M Session Error (Unit {0})
        bound a = on_error "LoginStudent bind" (bind_student user a.id)

        rest : Account ℕ → M Session Error (Unit {0})
        rest a = do
          on_error "LoginStudent user" (insert_user user)
          on_error "LoginStudent unbind teacher" (unbind_teacher_rows user)
          on_error "LoginStudent unbind student" (unbind_student_rows user)
          bound a

        asked :
            {s : Account ℕ}
            → account_of (trim_space login) password db.students ≡ some s
            → student_account login password (calm db) ≡ (ok s, calm db)
        asked found = rw found

    bind_teacher-calm :
        (id : ℕ)
        → bind_teacher user id (calm (prepared user db)) ≡ (ok tt, calm (teacher_in user id db))
    unfolding exec
    bind_teacher-calm id = rw (
        rebind-give (omega arith) (release-IsKeyed (omega arith) sound.teachers user) user
          (with_placeholders user db (add_user user db.users)) id
          (unbound-release (omega arith) sound.teachers user (ordinary teacher_base n))
          (ordinary teacher_base n) entered)

    pub login_teacher-calm :
        {s : Account (Option String)}
        → account_of (trim_space login) password db.teachers ≡ some s
        → login_teacher user login password (calm db) ≡ (ok tt, calm (teacher_in user s.id db))
    unfolding login_teacher
    login_teacher-calm {s} found =
        begin_tx-calm "LoginTeacher begin" (teacher_account login password >>= rest) db (
          >>=-eq-ok (teacher_account login password) (calm db) (asked found) rest
          ∙ prepare-calm "LoginTeacher user" "LoginTeacher unbind previous teacher"
              "LoginTeacher unbind student" (bound s)
          ∙ on_error-eq-ok (bind_teacher user s.id) (calm (prepared user db))
              (bind_teacher-calm s.id) "LoginTeacher bind")
      where
        bound : Account (Option String) → M Session Error (Unit {0})
        bound a = on_error "LoginTeacher bind" (bind_teacher user a.id)

        rest : Account (Option String) → M Session Error (Unit {0})
        rest a = do
          on_error "LoginTeacher user" (insert_user user)
          on_error "LoginTeacher unbind previous teacher" (unbind_teacher_rows user)
          on_error "LoginTeacher unbind student" (unbind_student_rows user)
          bound a

        asked :
            {s : Account (Option String)}
            → account_of (trim_space login) password db.teachers ≡ some s
            → teacher_account login password (calm db) ≡ (ok s, calm db)
        asked found = rw found

  pub leave-calm : leave user (calm db) ≡ (ok tt, calm (left user db))
  unfolding leave
  leave-calm =
      begin_tx-calm "Leave begin"
        (on_error "Leave unbind student" (unbind_student_rows user)
          >> on_error "Leave unbind teacher" (unbind_teacher_rows user))
        db
        (>>=-eq-ok (on_error "Leave unbind student" (unbind_student_rows user)) (calm db)
            (on_error-eq-ok (unbind_student_rows user) (calm db)
              (unbind_students-calm user db sound.students) "Leave unbind student")
            (λ _. on_error "Leave unbind teacher" (unbind_teacher_rows user))
          ∙ on_error-eq-ok (unbind_teacher_rows user) (calm (students_left user db))
              (unbind_teachers-calm user _ sound.teachers) "Leave unbind teacher")

  pub student_in-IsSound : (id : ℕ) → IsSound (student_in user id db)
  student_in-IsSound id = record {
    students =
        give-IsKeyed (omega arith) (release-IsKeyed (omega arith) sound.students user) user
          (with_placeholders user db (add_user user db.users)) id
          (unbound-release (omega arith) sound.students user (ordinary student_base n))
          (ordinary student_base n) entered;
    teachers = release-IsKeyed (omega arith) sound.teachers user;
  }

  pub teacher_in-IsSound : (id : ℕ) → IsSound (teacher_in user id db)
  teacher_in-IsSound id = record {
    students = release-IsKeyed (omega arith) sound.students user;
    teachers =
        give-IsKeyed (omega arith) (release-IsKeyed (omega arith) sound.teachers user) user
          (with_placeholders user db (add_user user db.users)) id
          (unbound-release (omega arith) sound.teachers user (ordinary teacher_base n))
          (ordinary teacher_base n) entered;
  }

  pub left-IsSound : IsSound (left user db)
  left-IsSound = record {
    students = release-IsKeyed (omega arith) sound.students user;
    teachers = release-IsKeyed (omega arith) sound.teachers user;
  }
