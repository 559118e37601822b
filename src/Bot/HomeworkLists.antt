-- ===== src/Bot/HomeworkLists.antt =====
-- timetable-homework-tgbot/internal/infrastracture/repositories/homework_repository.go: the lists of
-- homework, and what a student does with it.
pub mod Saved
use uban_z.Prelude.{
  ℕ, suc, ℤ, pos, eqb, leb, eqb_ℤ, String, Bool, true, false, not, ◌&&◌, ◌||◌, List, [], ◌∷◌, ◌++◌,
  any, find, filter, map, Option, none, some, ◌==◌, Result, ok, err, M, ◌>>=◌, pure, itoa,
  if◌then◌else◌,
}
use uban_z.Bot.Tables.{Account, GroupRow, HomeworkRow, GroupHomework, StatusRow, Db, holds}
use uban_z.Bot.Session.{Error, Session, exec, ask, on_error}
use uban_z.Bot.Homework.{HwBrief, concat, has_number, is_taught_by, affected, forbidden}

-- ORDER BY h.id DESC.
unfoldable pub insert_newest : HomeworkRow → List HomeworkRow → List HomeworkRow
insert_newest h [] = h ∷ []
insert_newest h (x ∷ xs) = if leb x.id h.id then h ∷ x ∷ xs else x ∷ insert_newest h xs

unfoldable pub newest_first : List HomeworkRow → List HomeworkRow
unfolding insert_newest
newest_first [] = []
newest_first (h ∷ hs) = insert_newest h (newest_first hs)

abbrev pub is_status : ℕ → ℕ → StatusRow → Bool
is_status student_id homework_id s = eqb s.student_id student_id && eqb s.homework_id homework_id

abbrev status_or_new : Option StatusRow → String
status_or_new none = "new"
status_or_new (some s) = s.status

-- fmt.Sprintf("#%d", id).
abbrev pub subject_of : ℕ → String
subject_of id = concat "#" (itoa (pos id))

abbrev pub student_brief : Db → HomeworkRow → Account ℕ → HwBrief
student_brief db h s = record {
  id = h.id;
  subject = subject_of h.id;
  homework_text = h.text;
  status = status_or_new (find (is_status s.id h.id) db.statuses);
}

-- The students that one link reaches, and all the links of one homework.
unfoldable pub briefs_of_link :
    Db → ℤ → HomeworkRow → GroupHomework → List (Account ℕ) → List HwBrief
briefs_of_link db u h l [] = []
briefs_of_link db u h l (s ∷ students) =
    let rest = briefs_of_link db u h l students in
    if holds u s && eqb s.about l.group_id then student_brief db h s ∷ rest else rest

unfoldable pub briefs_of_homework : Db → ℤ → HomeworkRow → List GroupHomework → List HwBrief
unfolding briefs_of_link
briefs_of_homework db u h [] = []
briefs_of_homework db u h (l ∷ links) =
    let rest = briefs_of_homework db u h links in
    if eqb l.homework_id h.id then briefs_of_link db u h l db.students ++ rest else rest

unfoldable pub briefs_for_user : Db → ℤ → List HomeworkRow → List HwBrief
unfolding briefs_of_homework
briefs_for_user db u [] = []
briefs_for_user db u (h ∷ hs) =
    briefs_of_homework db u h db.group_homeworks ++ briefs_for_user db u hs

unfoldable pub list_for_user : ℤ → M Session Error (List HwBrief)
unfolding exec newest_first briefs_for_user
list_for_user u =
    on_error "ListForUser query" (ask (λ db. ok (briefs_for_user db u (newest_first db.homeworks))))

-- Whether a student's group has a homework.
abbrev pub reaches : ℤ → ℤ → GroupHomework → Account ℕ → Bool
reaches u id l s = eqb_ℤ (pos l.homework_id) id && (holds u s && eqb s.about l.group_id)

abbrev pub is_assigned : ℤ → ℤ → Db → HomeworkRow → Bool
is_assigned u id db h =
    has_number id h && any (λ l. any (reaches u id l) db.students) db.group_homeworks

unfoldable pub check_existence : ℤ → ℤ → M Session Error Bool
unfolding exec
check_existence u id =
    on_error "homeworks.CheckExistence query"
      (ask (λ db. ok (any (is_assigned u id db) db.homeworks)))

unfoldable pub check_teacher_homework : ℤ → ℤ → M Session Error Bool
unfolding exec
check_teacher_homework u id =
    on_error "homeworks.CheckTeacherHomework query"
      (ask λ db. ok (any (λ h. has_number id h && is_taught_by u db h) db.homeworks))

-- ON CONFLICT (student_id, homework_id) DO UPDATE SET status = EXCLUDED.status.
unfoldable pub put_status : ℕ → ℕ → String → List StatusRow → List StatusRow
put_status student_id homework_id status [] =
    record { student_id = student_id; homework_id = homework_id; status = status } ∷ []
put_status student_id homework_id status (s ∷ statuses) =
    let rest = put_status student_id homework_id status statuses in
    if is_status student_id homework_id s then record s { status = status } ∷ statuses else s ∷ rest

-- The rows that the SELECT of UpdateStatus yields, one homework after the other.
unfoldable pub done_students :
    ℤ → ℤ → HomeworkRow → GroupHomework → List (Account ℕ) → List StatusRow → List StatusRow
unfolding put_status
done_students u id h l [] statuses = statuses
done_students u id h l (s ∷ students) statuses =
    let rest = done_students u id h l students statuses in
    if has_number id h && reaches u id l s then put_status s.id h.id "done" rest else rest

unfoldable pub done_links : ℤ → ℤ → Db → HomeworkRow → List GroupHomework → List StatusRow
unfolding done_students
done_links u id db h [] = db.statuses
done_links u id db h (l ∷ links) = done_students u id h l db.students (done_links u id db h links)

unfoldable pub update_status : ℤ → ℤ → M Session Error (Unit {0})
unfolding exec done_links
update_status u id = affected (forbidden "UpdateStatus homework" id) (
    on_error "UpdateStatus exec" (
      exec λ db. (
        ok (any (is_assigned u id db) db.homeworks),
        elim (find (has_number id) db.homeworks) [
          | none ↦ db
          | some h ↦ record db { statuses = done_links u id db h db.group_homeworks }
        ],
      )))

-- string_agg(g.group_name, ', ' ORDER BY g.group_name); the collation is the database's.
module _ (text_le : String → String → Bool) where
  unfoldable pub insert_name : String → List String → List String
  insert_name a [] = a ∷ []
  insert_name a (b ∷ names) = if text_le a b then a ∷ b ∷ names else b ∷ insert_name a names

  unfoldable pub names_of_link : GroupHomework → List GroupRow → List String → List String
  unfolding insert_name
  names_of_link l [] names = names
  names_of_link l (g ∷ groups) names =
      let rest = names_of_link l groups names in
      if eqb g.id l.group_id then insert_name g.group_name rest else rest

  unfoldable pub group_names : Db → HomeworkRow → List GroupHomework → List String
  unfolding names_of_link
  group_names db h [] = []
  group_names db h (l ∷ links) =
      let rest = group_names db h links in
      if eqb l.homework_id h.id then names_of_link l db.groups rest else rest

  abbrev pub join_names : List String → String
  join_names [] = ""
  join_names (a ∷ names) = elim names [
    | [] ↦ a
    | b ∷ bs ↦ concat a (concat ", " (join_names names))
  ]

  abbrev optional_text : Option String → String
  optional_text none = ""
  optional_text (some s) = s

  -- `if groups != "" { hw.HomeworkText = "[groups] text" }`.
  abbrev pub teacher_text : String → String → String
  teacher_text groups text =
      if groups == "" then text else concat "[" (concat groups (concat "] " text))

  abbrev pub teacher_brief : HomeworkRow → List String → HwBrief
  teacher_brief h names = record {
    id = h.id;
    subject = subject_of h.id;
    homework_text = teacher_text (join_names names) h.text;
    status = optional_text h.status;
  }

  -- A homework with no group is in no row of the join.
  abbrev pub brief_rows : HomeworkRow → List String → List HwBrief
  brief_rows h [] = []
  brief_rows h (a ∷ names) = teacher_brief h (a ∷ names) ∷ []

  unfoldable pub briefs_for_teacher : Db → ℤ → List HomeworkRow → List HwBrief
  unfolding group_names
  briefs_for_teacher db u [] = []
  briefs_for_teacher db u (h ∷ hs) =
      let rest = briefs_for_teacher db u hs in
      if is_taught_by u db h
      then brief_rows h (group_names db h db.group_homeworks) ++ rest
      else rest

  unfoldable pub list_for_teacher : ℤ → M Session Error (List HwBrief)
  unfolding exec newest_first briefs_for_teacher
  list_for_teacher u =
      on_error "ListForTeacher query"
        (ask (λ db. ok (briefs_for_teacher db u (newest_first db.homeworks))))
