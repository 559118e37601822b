-- ===== src/Tests/BotData.antt =====
-- A database of the bot with a student, two teachers and a homework.
use uban_z.Prelude.{
  ℕ, ◌≤◌, pos, negsuc, String, [], ◌∷◌, Option, none, some, true, ◌≡◌, refl, sym, ap, ◌∙◌, inl, inr,
  arith, Among, ok, trim_space, trim_left, trim_right, is_space,
}
use uban_z.Bot.Tables.{Account, GroupRow, HomeworkRow, Db}
use uban_z.Bot.Users.{student_base, teacher_base, account_of}
use uban_z.Bot.Users.Keys.{IsKeyed}
use uban_z.Bot.Users.Login.{IsSound}
use uban_z.Bot.Session.{calm}
use uban_z.Bot.Homework.{delete_by_teacher, is_owned, left_of_colon}
use uban_z.Bot.HomeworkLists.Saved.{IsNumbered}

abbrev pub student : Account ℕ
student = record {
  id = 1;
  user_id = negsuc 300_000_000_000_000;
  about = 7;
  login = some "student1";
  password = some "student1";
}

abbrev pub group : GroupRow
group = record { id = 7; group_name = "23204" }

-- A teacher who has signed in, and one from the timetable.
abbrev pub teacher : Account (Option String)
teacher = record {
  id = 1;
  user_id = pos 77;
  about = some "Иванов";
  login = some "teacher_1";
  password = some "teacher_1";
}

abbrev pub other_teacher : Account (Option String)
other_teacher = record {
  id = 2;
  user_id = negsuc 41;
  about = some "Петров";
  login = some "teacher_2";
  password = some "teacher_2";
}

abbrev pub homework : HomeworkRow
homework = record { id = 3; text = "Алгебра: стр. 5"; status = some "new"; teacher_id = some 1 }

abbrev pub db : Db
db = record {
  users = negsuc 300_000_000_000_000 ∷ pos 77 ∷ negsuc 41 ∷ [];
  groups = group ∷ [];
  students = student ∷ [];
  teachers = teacher ∷ other_teacher ∷ [];
  auditoriums = record { id = 5; room_name = "3107" } ∷ [];
  lessons =
      record {
        id = 9;
        subject = "Алгебра";
        lesson_type = none;
        weekday = 1;
        start_time = "09:00:00";
        week = none;
        teacher_id = 1;
        room_id = 5;
      }
      ∷ [];
  lesson_groups = record { lesson_id = 9; group_id = 7 } ∷ [];
  homeworks = homework ∷ [];
  group_homeworks = record { group_id = 7; homework_id = 3 } ∷ [];
  statuses = [];
  notifications = [];
  group_seq = 7;
  teacher_seq = 2;
  room_seq = 5;
  lesson_seq = 9;
  homework_seq = 3;
  notification_seq = 0;
}

pub students-IsKeyed : IsKeyed student_base (student ∷ [])
students-IsKeyed = record {
  by_id = λ a b m k e. same a b m k;
  by_user = λ a b m k e. same a b m k;
  reserved = λ a k m e. elim m [ inl p ↦ ground arith | inr n ↦ elim n [ ] ];
}
  where
    same : (a b : Account ℕ) → Among a (student ∷ []) → Among b (student ∷ []) → a ≡ b
    same a b m k = elim m [
      | inl p ↦ elim k [ inl q ↦ p ∙ sym q | inr n ↦ elim n [ ] ]
      | inr n ↦ elim n [ ]
    ]

pub teachers-IsKeyed : IsKeyed teacher_base (teacher ∷ other_teacher ∷ [])
teachers-IsKeyed = record {
  by_id = λ a b m k e. elim m [
    | inl p ↦ elim k [
      | inl q ↦ p ∙ sym q
      | inr (inl q) ↦ absurd (omega (arith, ap (λ t. t.id) p, ap (λ t. t.id) q, e))
      | inr (inr n) ↦ elim n [ ]
    ]
    | inr (inl p) ↦ elim k [
      | inl q ↦ absurd (omega (arith, ap (λ t. t.id) p, ap (λ t. t.id) q, e))
      | inr (inl q) ↦ p ∙ sym q
      | inr (inr n) ↦ elim n [ ]
    ]
    | inr (inr n) ↦ elim n [ ]
  ];
  by_user = λ a b m k e. elim m [
    | inl p ↦ elim k [
      | inl q ↦ p ∙ sym q
      | inr (inl q) ↦ absurd (ground arith)
      | inr (inr n) ↦ elim n [ ]
    ]
    | inr (inl p) ↦ elim k [
      | inl q ↦ absurd (ground arith)
      | inr (inl q) ↦ p ∙ sym q
      | inr (inr n) ↦ elim n [ ]
    ]
    | inr (inr n) ↦ elim n [ ]
  ];
  reserved = λ a k m e. elim m [
    | inl p ↦ ground arith
    | inr (inl p) ↦ ground arith
    | inr (inr n) ↦ elim n [ ]
  ];
}

pub db-IsSound : IsSound db
db-IsSound = record { students = students-IsKeyed; teachers = teachers-IsKeyed }

pub db-IsNumbered : IsNumbered db
db-IsNumbered = record { homeworks = omega arith; links = omega arith; statuses = tt }

pub one_number :
    (a b : HomeworkRow) → Among a db.homeworks → Among b db.homeworks → a.id ≡ b.id → a ≡ b
one_number a b m k e = elim m [
  | inl p ↦ elim k [ inl q ↦ p ∙ sym q | inr n ↦ elim n [ ] ]
  | inr n ↦ elim n [ ]
]

pub with_colon :
    (h : HomeworkRow)
    → Among h db.homeworks
    → is_owned (pos 77) (pos 3) db h ≡ true
    → (t : String) × (left_of_colon h.text ≡ some t)
unfolding left_of_colon
with_colon h m own = elim m [
  | inl e ↦ ("Алгебра:", ap (λ h. left_of_colon h.text) e)
  | inr n ↦ elim n [ ]
]

pub student_found : account_of (trim_space " student1 ") "student1" db.students ≡ some student
unfolding account_of trim_space trim_left trim_right is_space
student_found = refl

pub teachers_below : (t : Account (Option String)) → Among t db.teachers → t.id ≤ db.teacher_seq
teachers_below t m = elim m [
  | inl p ↦ omega (arith, ap (λ t. t.id) p)
  | inr (inl p) ↦ omega (arith, ap (λ t. t.id) p)
  | inr (inr n) ↦ elim n [ ]
]

pub deleted : (delete_by_teacher (pos 77) (pos 3) (calm db)).0 ≡ ok tt
unfolding delete_by_teacher
deleted = refl
