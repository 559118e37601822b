-- ===== src/Bot/Lessons.antt =====
-- timetable-homework-tgbot/internal/infrastracture/repositories/lesson_repositiory.go. A link of a
-- lesson to a group and the name of a group are unique, so a join over a named group yields a lesson
-- at most once. The collation of names and the order of times are the database's.
pub mod Days
use uban_z.Prelude.{
  ℕ, ◌+◌, pos, ℤ, eqb, leb, ltb, eqb_ℤ, String, Bool, true, false, not, ◌&&◌, ◌||◌, List, [], ◌∷◌,
  ◌++◌, any, find, map, filter, Option, none, some, ◌==◌, Result, ok, err, M, trim_space, itoa,
  has_prefix, if◌then◌else◌,
}
use Prim.Native.Char.{code}
use Prim.Native.String
use uban_z.Bot.Tables.{Account, GroupRow, RoomRow, LessonRow, LessonGroup, Db, holds}
use uban_z.Bot.Session.{Error, Session, exec, ask, on_error}
use uban_z.Bot.HomeworkLists.{insert_name, join_names}
use uban_z.Bot.Fill.{normalize_group}

-- domain.LessonBrief.
pub record LessonBrief : Type 0 where
  pub title : String
  pub lesson_type : String
  pub tutor : String
  pub start_time : String
  pub weekday : String
  pub room : String
  pub groups : String
  pub week : String

abbrev pub null_to_string : Option String → String
null_to_string none = ""
null_to_string (some s) = s

abbrev pub null_int_to_string : Option ℕ → String
null_int_to_string none = ""
null_int_to_string (some n) = itoa (pos n)

-- A day that is unknown has the number 0, which no lesson has.
unfoldable pub weekday_number : String → ℕ
weekday_number day =
    let name = trim_space day in
    if name == "Понедельник"
    then 1
    else if name == "Вторник"
    then 2
    else if name == "Среда"
    then 3
    else if name == "Четверг"
    then 4
    else if name == "Пятница"
    then 5
    else if name == "Суббота"
    then 6
    else if name == "Воскресенье"
    then 7
    else 0

unfoldable pub weekday_name : ℕ → String
weekday_name day =
    if eqb day 1
    then "Понедельник"
    else if eqb day 2
    then "Вторник"
    else if eqb day 3
    then "Среда"
    else if eqb day 4
    then "Четверг"
    else if eqb day 5
    then "Пятница"
    else if eqb day 6
    then "Суббота"
    else if eqb day 7
    then "Воскресенье"
    else ""

-- strings.TrimSuffix(s, ":00").
unfoldable pub trim_time : String → String
trim_time String.[] = String.[]
trim_time (String.◌∷◌ c s) =
    let rest = trim_time s in if String.◌∷◌ c s == ":00" then String.[] else String.◌∷◌ c rest

abbrev pub is_of_group : String → LessonRow → Db → LessonGroup → Bool
is_of_group group l db lg =
    eqb lg.lesson_id l.id && any (λ g. eqb g.id lg.group_id && g.group_name == group) db.groups

-- JOIN lesson_groups, JOIN groups, WHERE group_name = $1.
abbrev pub has_group : String → Db → LessonRow → Bool
has_group group db l = any (is_of_group group l db) db.lesson_groups

abbrev pub is_teacher_of : LessonRow → Account (Option String) → Bool
is_teacher_of l t = eqb t.id l.teacher_id

abbrev pub is_room_of : LessonRow → RoomRow → Bool
is_room_of l r = eqb r.id l.room_id

module _ (text_le time_le : String → String → Bool) where
  unfoldable pub names_of_link : LessonGroup → List GroupRow → List String → List String
  unfolding insert_name
  names_of_link lg [] names = names
  names_of_link lg (g ∷ groups) names =
      let rest = names_of_link lg groups names in
      if eqb g.id lg.group_id then insert_name text_le g.group_name rest else rest

  -- string_agg(group_name, ', ' ORDER BY group_name).
  unfoldable pub group_names : Db → LessonRow → List LessonGroup → List String
  unfolding names_of_link
  group_names db l [] = []
  group_names db l (lg ∷ links) =
      let rest = group_names db l links in
      if eqb lg.lesson_id l.id then names_of_link lg db.groups rest else rest

  -- ORDER BY weekday, start_time.
  abbrev pub lesson_le : LessonRow → LessonRow → Bool
  lesson_le a b =
      ltb a.weekday b.weekday || (eqb a.weekday b.weekday && time_le a.start_time b.start_time)

  unfoldable pub insert_lesson_sorted : LessonRow → List LessonRow → List LessonRow
  insert_lesson_sorted a [] = a ∷ []
  insert_lesson_sorted a (b ∷ bs) =
      if lesson_le a b then a ∷ b ∷ bs else b ∷ insert_lesson_sorted a bs

  unfoldable pub order_lessons : List LessonRow → List LessonRow
  unfolding insert_lesson_sorted
  order_lessons [] = []
  order_lessons (a ∷ as') = insert_lesson_sorted a (order_lessons as')

  abbrev pub brief_of : LessonRow → Account (Option String) → RoomRow → List String → LessonBrief
  brief_of l t r names = record {
    title = l.subject;
    lesson_type = null_to_string l.lesson_type;
    tutor = null_to_string t.about;
    start_time = trim_time l.start_time;
    weekday = weekday_name l.weekday;
    room = r.room_name;
    groups = join_names text_le names;
    week = null_int_to_string l.week;
  }

  -- A lesson without a group is in no row of the join.
  abbrev brief_rows : LessonRow → Account (Option String) → RoomRow → List String → List LessonBrief
  brief_rows l t r [] = []
  brief_rows l t r (a ∷ names) = brief_of l t r (a ∷ names) ∷ []

  abbrev joined :
      Db → LessonRow → Option (Account (Option String)) → Option RoomRow → List LessonBrief
  joined db l (some t) (some r) = brief_rows l t r (group_names db l db.lesson_groups)
  joined db l _ _ = []

  unfoldable pub briefs_of_lessons : Db → List LessonRow → List LessonBrief
  unfolding group_names
  briefs_of_lessons db [] = []
  briefs_of_lessons db (l ∷ ls) =
      joined db l (find (is_teacher_of l) db.teachers) (find (is_room_of l) db.auditoriums)
      ++ briefs_of_lessons db ls

  -- `queryLessons` with the WHERE clause of a query.
  unfoldable pub query_lessons : (Db → LessonRow → Bool) → M Session Error (List LessonBrief)
  unfolding exec order_lessons briefs_of_lessons trim_time weekday_name
  query_lessons test =
      on_error "query lessons"
        (ask (λ db. ok (briefs_of_lessons db (order_lessons (filter (test db) db.lessons)))))

  unfoldable pub get_lessons_group : String → M Session Error (List LessonBrief)
  unfolding query_lessons normalize_group
  get_lessons_group group = query_lessons (has_group (normalize_group group))

  abbrev is_named_lower : (String → String) → String → Option String → Bool
  is_named_lower lower fio none = false
  is_named_lower lower fio (some name) = lower name == lower fio

  -- lower() is the database's.
  unfoldable pub get_lessons_teacher :
      (String → String) → String → M Session Error (List LessonBrief)
  unfolding query_lessons
  get_lessons_teacher lower fio = query_lessons λ db l.
      any (λ t. is_teacher_of l t && is_named_lower lower (trim_space fio) t.about) db.teachers

  unfoldable pub get_lessons_room : String → M Session Error (List LessonBrief)
  unfolding query_lessons
  get_lessons_room room =
      query_lessons
        λ db l. any (λ r. is_room_of l r && r.room_name == trim_space room) db.auditoriums

  -- Of lessons on one day the order is that of their start.
  unfoldable pub lessons_by_day_group_for_teacher :
      ℤ → String → String → M Session Error (List LessonBrief)
  unfolding query_lessons weekday_number
  lessons_by_day_group_for_teacher u group day = query_lessons λ db l.
      has_group group db l
      && (eqb l.weekday (weekday_number day)
          && any (λ t. is_teacher_of l t && holds u t) db.teachers)

abbrev pub is_teacher_lesson : ℤ → String → ℕ → String → Db → LessonRow → Bool
is_teacher_lesson u group day subject db l =
    any (λ t. is_teacher_of l t && holds u t) db.teachers
    && (has_group group db l && (eqb l.weekday day && l.subject == subject))

unfoldable pub has_teacher_lesson : ℤ → String → String → String → M Session Error Bool
unfolding exec weekday_number
has_teacher_lesson u group day subject =
    on_error "HasTeacherLesson query"
      (ask (λ db. ok (any (is_teacher_lesson u group (weekday_number day) subject db) db.lessons)))

-- GROUP BY weekday ORDER BY weekday.
unfoldable pub insert_day : ℕ → List ℕ → List ℕ
insert_day d [] = d ∷ []
insert_day d (e ∷ days) =
    let rest = insert_day d days in
    if ltb d e then d ∷ e ∷ days else if eqb d e then e ∷ days else e ∷ rest

unfoldable pub days_of : List LessonRow → List ℕ
unfolding insert_day
days_of [] = []
days_of (l ∷ ls) = insert_day l.weekday (days_of ls)

unfoldable pub get_days_with_lessons_by_group : String → M Session Error (List String)
unfolding exec days_of weekday_name
get_days_with_lessons_by_group group =
    on_error "GetDaysWithLessonsByGroup query"
      (ask (λ db. ok (map weekday_name (days_of (filter (has_group group db) db.lessons)))))
