-- ===== src/Bot/Tables.antt =====
-- The tables of timetable-homework-tgbot/migrations. The order of the rows in a table means
-- nothing, except that new rows stand first. An identifier is drawn from a BIGSERIAL sequence,
-- which stays far below the bound of a bigint.
use uban_z.Prelude.{ℕ, ℤ, eqb_ℤ, String, Bool, List, any, Option, none, some, ◌==◌, Bool, false}
use uban_z.Clock.{Time}

-- A row of `students` or of `teachers`: what they have in common, and of each what is its own, the
-- group of a student and the name of a teacher.
pub record Account (D : Type 0) : Type 0 where
  pub id : ℕ
  pub user_id : ℤ
  pub about : D
  pub login : Option String
  pub password : Option String

pub record GroupRow : Type 0 where
  pub id : ℕ
  pub group_name : String

pub record RoomRow : Type 0 where
  pub id : ℕ
  pub room_name : String

pub record LessonRow : Type 0 where
  pub id : ℕ
  pub subject : String
  pub lesson_type : Option String
  pub weekday : ℕ
  pub start_time : String
  pub week : Option ℕ
  pub teacher_id : ℕ
  pub room_id : ℕ

pub record LessonGroup : Type 0 where
  pub lesson_id : ℕ
  pub group_id : ℕ

pub record HomeworkRow : Type 0 where
  pub id : ℕ
  pub text : String
  pub status : Option String
  pub teacher_id : Option ℕ

pub record GroupHomework : Type 0 where
  pub group_id : ℕ
  pub homework_id : ℕ

pub record StatusRow : Type 0 where
  pub student_id : ℕ
  pub homework_id : ℕ
  pub status : String

pub record NotificationRow : Type 0 where
  pub id : ℕ
  pub timestamp : Time
  pub user_id : ℤ
  pub homework_id : ℤ

-- Each sequence is the last identifier that was drawn from it.
pub record Db : Type 0 where
  pub users : List ℤ
  pub groups : List GroupRow
  pub students : List (Account ℕ)
  pub teachers : List (Account (Option String))
  pub auditoriums : List RoomRow
  pub lessons : List LessonRow
  pub lesson_groups : List LessonGroup
  pub homeworks : List HomeworkRow
  pub group_homeworks : List GroupHomework
  pub statuses : List StatusRow
  pub notifications : List NotificationRow
  pub group_seq : ℕ
  pub teacher_seq : ℕ
  pub room_seq : ℕ
  pub lesson_seq : ℕ
  pub homework_seq : ℕ
  pub notification_seq : ℕ

-- SQL's `=` on a nullable column: NULL equals nothing.
abbrev pub sql_equal : Option String → String → Bool
sql_equal none t = false
sql_equal (some s) t = s == t

abbrev pub has_user : ℤ → List ℤ → Bool
has_user u users = any (λ v. eqb_ℤ v u) users

module _ {D : Type 0} where
  abbrev pub holds : ℤ → Account D → Bool
  holds u a = eqb_ℤ a.user_id u

  abbrev pub is_bound : ℤ → List (Account D) → Bool
  is_bound u rows = any (holds u) rows
