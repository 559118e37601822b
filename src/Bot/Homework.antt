-- ===== src/Bot/Homework.antt =====
-- timetable-homework-tgbot/internal/infrastracture/repositories/homework_repository.go.
pub mod Editing
pub mod Deletion
use uban_z.Prelude.{
  ℕ, suc, ◌+◌, ℤ, pos, eqb, leb, eqb_ℤ, String, Bool, true, false, not, ◌&&◌, ◌||◌, List, [], ◌∷◌,
  ◌++◌, any, find, filter, map, Option, none, some, ◌==◌, Result, ok, err, M, ◌>>=◌, ◌>>◌, pure,
  fail, require, trim_space, has_prefix, drop_text, take_text, itoa, if◌then◌else◌,
}
use Prim.Native.Char.{code}
use Prim.Native.String
use uban_z.Bot.Tables.{
  Account, GroupRow, HomeworkRow, GroupHomework, StatusRow, NotificationRow, Db, holds,
}
use uban_z.Bot.Session.{
  Error, no_rows, constraint, message, Session, exec, ask, change, on_error, one_row, begin_tx,
}

-- domain.HWBrief.
pub record HwBrief : Type 0 where
  pub id : ℕ
  pub subject : String
  pub homework_text : String
  pub status : String

abbrev pub concat : String → String → String
concat a b = String.◌++◌ a b

-- fmt.Sprintf("%s: %s", subject, text).
abbrev pub homework_text_of : String → String → String
homework_text_of subject text = concat subject (concat ": " text)

abbrev pub is_teacher : ℕ → Option ℕ → Bool
is_teacher id none = false
is_teacher id (some t) = eqb t id

-- h.teacher_id = t.id AND t.user_id = $1, for some teacher.
abbrev pub is_taught_by : ℤ → Db → HomeworkRow → Bool
is_taught_by u db h = any (λ t. is_teacher t.id h.teacher_id && holds u t) db.teachers

abbrev pub has_number : ℤ → HomeworkRow → Bool
has_number id h = eqb_ℤ (pos h.id) id

-- The row that UPDATE and DELETE select for a teacher.
abbrev pub is_owned : ℤ → ℤ → Db → HomeworkRow → Bool
is_owned u id db h = has_number id h && is_taught_by u db h

abbrev pub fresh_homework : String → ℕ → Db → HomeworkRow
fresh_homework text teacher_id db = record {
  id = suc db.homework_seq;
  text = text;
  status = some "new";
  teacher_id = some teacher_id;
}

-- INSERT INTO homeworks ... RETURNING id. The teacher was read in the same transaction, so the
-- foreign key holds.
unfoldable pub insert_homework : String → ℕ → M Db Error ℕ
insert_homework text teacher_id db = (
  ok (suc db.homework_seq),
  record db {
    homeworks = fresh_homework text teacher_id db ∷ db.homeworks;
    homework_seq = suc db.homework_seq;
  },
)

abbrev pub is_link : ℕ → ℕ → GroupHomework → Bool
is_link group_id homework_id l = eqb l.group_id group_id && eqb l.homework_id homework_id

-- INSERT INTO group_homeworks ... ON CONFLICT DO NOTHING.
unfoldable pub link_homework : ℕ → ℕ → Db → Db
link_homework group_id homework_id db =
    if any (is_link group_id homework_id) db.group_homeworks then db else record db {
      group_homeworks =
          record { group_id = group_id; homework_id = homework_id } ∷ db.group_homeworks;
    }

-- Inside the transaction of SaveForGroup.
abbrev pub save_steps : ℤ → String → String → String → M Session Error (Unit {0})
save_steps u group subject text = do
  teacher ← on_error "SaveForGroup teacher" (ask (λ db. one_row (find (holds u) db.teachers)))
  found ←
      on_error "SaveForGroup group"
        (ask (λ db. one_row (find (λ g. g.group_name == group) db.groups)))
  homework_id ←
      on_error "SaveForGroup homework"
        (exec (insert_homework (homework_text_of subject text) teacher.id))
  on_error "SaveForGroup link" (change (link_homework found.id homework_id))

unfoldable pub save_for_group : ℤ → String → String → String → M Session Error (Unit {0})
unfolding exec begin_tx insert_homework link_homework
save_for_group u group subject text =
    begin_tx "SaveForGroup begin" (save_steps u group subject text)

-- `strings.TrimSpace(strings.TrimPrefix(strings.TrimSpace(newText), "•"))`.
unfoldable pub clean_text : String → String
clean_text text =
    let trimmed = trim_space text in
    trim_space (if has_prefix trimmed "•" then drop_text 1 trimmed else trimmed)

-- LEFT(text, POSITION(':' IN text)), which is empty if there is no colon.
unfoldable pub left_of_colon : String → Option String
left_of_colon String.[] = none
left_of_colon (String.◌∷◌ c s) =
    if eqb (code c) b':'
    then some ":"
    else elim (left_of_colon s) [ none ↦ none | some t ↦ some (String.◌∷◌ c t) ]

-- CASE WHEN POSITION(':' IN h.text) > 0 THEN ... ELSE $3 END.
unfoldable pub replace_text : String → String → String
unfolding left_of_colon
replace_text old text = elim (left_of_colon old) [
  | none ↦ text
  | some subject ↦ concat subject (concat " • " text)
]

abbrev pub set_text : (HomeworkRow → Bool) → String → HomeworkRow → HomeworkRow
set_text test text h = if test h then record h { text = replace_text h.text text } else h

-- A statement that changes the rows a test selects, and says whether there was one.
abbrev pub forbidden : String → ℤ → Error
forbidden operation id =
    message (concat operation (concat ": not found or forbidden (id=" (concat (itoa id) ")")))

-- `if rows == 0 { return ... }` after the statement.
abbrev pub affected : Error → M Session Error Bool → M Session Error (Unit {0})
affected e statement = statement >>= λ selected. require selected e

unfoldable pub update : ℤ → ℤ → String → M Session Error (Unit {0})
unfolding exec clean_text replace_text
update u id new_text = affected (forbidden "Update homework" id) (
    on_error "Update homework exec" (
      exec λ db. (
        ok (any (is_owned u id db) db.homeworks),
        record db {
          homeworks = map (set_text (is_owned u id db) (clean_text new_text)) db.homeworks;
        },
      )))

-- ON DELETE CASCADE for the homeworks with a number.
abbrev pub delete_homeworks : (HomeworkRow → Bool) → ℤ → Db → Db
delete_homeworks test id db =
    if any test db.homeworks
    then record db {
      homeworks = filter (λ h. not (test h)) db.homeworks;
      group_homeworks = filter (λ l. not (eqb_ℤ (pos l.homework_id) id)) db.group_homeworks;
      statuses = filter (λ s. not (eqb_ℤ (pos s.homework_id) id)) db.statuses;
      notifications = filter (λ n. not (eqb_ℤ n.homework_id id)) db.notifications;
    }
    else db

unfoldable pub delete_by_teacher : ℤ → ℤ → M Session Error (Unit {0})
unfolding exec
delete_by_teacher u id = affected (forbidden "homeworks.DeleteByTeacher" id) (
    on_error "homeworks.DeleteByTeacher exec" (
      exec λ db.
        (ok (any (is_owned u id db) db.homeworks), delete_homeworks (is_owned u id db) id db)))
