-- ===== src/Tests/Bot.antt =====
-- The theorems on the bot at the sample database.
use uban_z.Prelude.{
  some, ℕ, pos, negsuc, ℤ, eqb, String, true, false, ◌&&◌, List, [], ◌∷◌, ◌++◌, map, filter, ok,
  ◌≡◌, ◌≢◌, refl, inl, arith, Among, All,
}
use uban_z.Bot.Tables.{HomeworkRow, GroupHomework, StatusRow, NotificationRow, holds, is_bound}
use uban_z.Bot.Session.{Session, calm}
use uban_z.Bot.Users.{
  login_student, leave, get_role, get_group, role_student, role_guest, teacher_base,
}
use uban_z.Bot.Users.Keys.{IsKeyed}
use uban_z.Bot.Users.Login.{IsSound}
use uban_z.Bot.Users.Roles.{login_student-get_role, leave-get_role}
use uban_z.Bot.Homework.{HwBrief, homework_text_of, save_for_group, update, delete_by_teacher}
use uban_z.Bot.Homework.Editing.{update-update}
use uban_z.Bot.Homework.Deletion.{foreign_homework, delete_by_teacher_lem}
use uban_z.Bot.HomeworkLists.{list_for_user, check_existence, check_teacher_homework}
use uban_z.Bot.HomeworkLists.Saved.{IsNumbered, fresh_brief, save_for_group-list_for_user}
use uban_z.Bot.Notifications.{Notification, add_notification, get_pending_notifications}
use uban_z.Bot.Notifications.Pending.{of_homework, add_notification-pending}
use uban_z.Bot.Fill.{ensure_teacher, key_of_lesson, is_lesson_valid}
use uban_z.Bot.Fill.Numbers.{key_of_lesson_valid}
use uban_z.Bot.Fill.Teachers.{ensure_teacher-IsKeyed}
use uban_z.Bot.Source.{
  Site, LessonTeacher, LessonRoom, parse_lessons_teacher, parse_lessons_room, LessonStudent,
}
use uban_z.Bot.Source.SharedGroups.{IsOfSlot, page_lessons-IsOfSlot}
use uban_z.Page.{Cell, Table, Document}
use uban_z.Tests.BotData.{
  student, group, teacher, homework, db, db-IsSound, db-IsNumbered, one_number, with_colon,
  student_found, teachers_below, teachers-IsKeyed, deleted,
}

-- A teacher signs in with a student's account.
login_student-get_role_example :
    (after : Session) × (login_student (pos 77) " student1 " "student1" (calm db) ≡ (ok tt, after))
    × (get_role (pos 77) after ≡ (ok role_student, after))
    × (get_group (pos 77) after ≡ (ok "23204", after))
    × (is_bound (pos 77) after.db.teachers ≡ false)
    × ((v : ℕ)
        → v ≢ 77
        → student.user_id ≢ pos v
        → (get_role (pos v) after).0 ≡ (get_role (pos v) (calm db)).0)
    × IsSound after.db
login_student-get_role_example =
    login_student-get_role db-IsSound 77 " student1 " "student1" student group student_found refl

leave-get_role_example :
    (after : Session) × (leave (pos 77) (calm db) ≡ (ok tt, after))
    × (get_role (pos 77) after ≡ (ok role_guest, after))
    × ((v : ℕ) → v ≢ 77 → (get_role (pos v) after).0 ≡ (get_role (pos v) (calm db)).0)
    × IsSound after.db
leave-get_role_example = leave-get_role db-IsSound 77

save_for_group-list_for_user_example :
    (after : Session) × (old : List HwBrief) × (save_for_group
        (pos 77)
        "23204"
        "Физика"
        "№ 12"
        (calm db)
      ≡ (ok tt, after))
    × ((list_for_user (negsuc 300_000_000_000_000) (calm db)).0 ≡ ok old)
    × ((list_for_user (negsuc 300_000_000_000_000) after).0
        ≡ ok (
            map
              (λ _. fresh_brief (homework_text_of "Физика" "№ 12") 4)
              (filter (λ s. holds (negsuc 300_000_000_000_000) s && eqb s.about 7) db.students)
            ++ old))
    × IsNumbered after.db
save_for_group-list_for_user_example =
    save_for_group-list_for_user db-IsNumbered (pos 77) "23204" "Физика" "№ 12" teacher group
      (negsuc 300_000_000_000_000) refl refl

delete_by_teacher_lem_example :
    (after : Session) × (delete_by_teacher (pos 77) (pos 3) (calm db) ≡ (ok tt, after))
    × ((v : ℤ) → (check_existence v (pos 3) after).0 ≡ ok false)
    × ((v : ℤ) → (check_teacher_homework v (pos 3) after).0 ≡ ok false)
    × ((l : GroupHomework) → Among l after.db.group_homeworks → pos l.homework_id ≢ pos 3)
    × ((s : StatusRow) → Among s after.db.statuses → pos s.homework_id ≢ pos 3)
    × ((n : NotificationRow) → Among n after.db.notifications → n.homework_id ≢ pos 3)
    × ((h : HomeworkRow) → Among h db.homeworks → pos h.id ≢ pos 3 → Among h after.db.homeworks)
delete_by_teacher_lem_example = delete_by_teacher_lem (pos 77) (pos 3) db one_number deleted

foreign_homework_example :
    Among homework (update (negsuc 41) (pos 3) "нет" (calm db)).1.db.homeworks
    × Among homework (delete_by_teacher (negsuc 41) (pos 3) (calm db)).1.db.homeworks
foreign_homework_example = foreign_homework (negsuc 41) (pos 3) db "нет" homework (inl refl) refl

update-update_example :
    update (pos 77) (pos 3) "стр. 7" (update (pos 77) (pos 3) "стр. 6" (calm db)).1
    ≡ update (pos 77) (pos 3) "стр. 7" (calm db)
update-update_example = update-update (pos 77) (pos 3) db "стр. 6" "стр. 7" with_colon

add_notification-pending_example :
    (after : Session) × (ns : List Notification) × (add_notification
        (pos 77)
        (pos 3)
        100_000
        (calm db)
      ≡ (ok tt, after))
    × (get_pending_notifications 200_000 after ≡ (ok ns, after))
    × Among (of_homework (pos 77) (pos 3) 100_000 db homework) ns
add_notification-pending_example =
    add_notification-pending (pos 77) (pos 3) 100_000 db homework 200_000 refl refl (omega arith)

ensure_teacher-IsKeyed_example :
    IsKeyed teacher_base (ensure_teacher "Сидоров" (calm db)).1.db.teachers
ensure_teacher-IsKeyed_example = ensure_teacher-IsKeyed db "Сидоров" teachers-IsKeyed teachers_below

abbrev parsed_lesson : LessonStudent
parsed_lesson = record {
  subject = "Алгебра";
  lesson_type = "лек";
  tutor = "Иванов";
  start_time = "9:00";
  weekday = "Втор.";
  room = "3107";
  week = "по 3 неделям";
}

key_of_lesson_valid_example : is_lesson_valid (key_of_lesson parsed_lesson 1 5) ≡ true
key_of_lesson_valid_example = key_of_lesson_valid parsed_lesson 1 5

abbrev cell : String → String → Cell
cell subject group = record {
  lesson_type = "";
  subject = subject;
  tutor = "";
  room = "";
  week = "";
  groups = group ∷ [];
}

-- Two lessons in one slot, each with a group of its own.
abbrev cells : List Cell
cells = cell "Алгебра" "23204" ∷ cell "Физика" "23203" ∷ []

abbrev two_cells : Table
two_cells = record {
  headers = "Время" ∷ "Вторник" ∷ [];
  rows =
      [] ∷ (record { label = "9:00"; cells = [] } ∷ record { label = ""; cells = cells } ∷ []) ∷ [];
}

abbrev slot_page : Document
slot_page = record { time_table = some two_cells; items = []; faculties = []; groups = [] }

abbrev slot_site : Site
slot_site = record {
  get = λ url. ok (record { status = 200; body = url });
  parse_html = λ body. ok slot_page;
}

page_lessons-IsOfSlot_example :
    ((lessons : List LessonTeacher) × (parse_lessons_teacher slot_site "/teacher/1" ≡ ok lessons)
      × All (λ l. IsOfSlot two_cells l.subject l.groups) lessons)
    × ((lessons : List LessonRoom) × (parse_lessons_room slot_site "/teacher/1" ≡ ok lessons)
        × All (λ l. IsOfSlot two_cells l.subject l.groups) lessons)
page_lessons-IsOfSlot_example =
    page_lessons-IsOfSlot slot_site "/teacher/1" (record { status = 200; body = "/teacher/1" })
      slot_page two_cells refl refl refl
