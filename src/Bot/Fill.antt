-- ===== src/Bot/Fill.antt =====
-- timetable-homework-tgbot/internal/infrastracture/database/fill_database.go: how a group's lessons
-- enter the database. `time_of` is what PostgreSQL reads in a text as a TIME.
pub mod Numbers
pub mod Teachers
use Prim.Native.Char.{Char, code}
use Prim.Native.Nat.{bit_xor}
use Prim.Native.String
use uban_z.Prelude.{
  ℕ, suc, ◌+◌, ◌*◌, ◌/◌, ◌%◌, ◌^◌, ℤ, pos, negsuc, eqb, leb, ltb, String, Bool, true, false, not,
  ◌&&◌, ◌||◌, List, [], ◌∷◌, ◌++◌, any, find, map, Option, none, some, ◌==◌, Result, ok, err, M,
  ◌>>=◌, ◌>>◌, pure, fail, lift, trim_space, is_space, is_empty, itoa, atoi, if◌then◌else◌,
}
use uban_z.Bot.Tables.{Account, GroupRow, RoomRow, LessonRow, LessonGroup, Db, holds, is_bound}
use uban_z.Bot.Session.{
  Error, no_rows, constraint, Session, exec, ask, change, on_error, one_row, transaction,
}
use uban_z.Bot.Users.{add_user}
use uban_z.Bot.Source.{LessonStudent}

abbrev concat : String → String → String
concat a b = String.◌++◌ a b

-- strings.ReplaceAll(text, " ", "").
unfoldable pub without_blanks : String → String
without_blanks String.[] = String.[]
without_blanks (String.◌∷◌ c s) =
    if eqb (code c) b' ' then without_blanks s else String.◌∷◌ c (without_blanks s)

unfoldable pub normalize_group : String → String
unfolding without_blanks
normalize_group group = without_blanks (trim_space group)

unfoldable pub null_string : String → Option String
null_string value = if trim_space value == "" then none else some (trim_space value)

unfoldable pub weekday_number : String → ℕ
weekday_number day =
    let name = trim_space day in
    if name == "Понедельник"
    then 1
    else if name == "Вторник"
    then 2
    else if name == "Среда"
    then 3
    else if name == "Четверг"
    then 4
    else if name == "Пятница"
    then 5
    else if name == "Суббота"
    then 6
    else if name == "Воскресенье"
    then 7
    else 1

abbrev add_part : String → List String → List String
add_part part parts = if is_empty part then parts else part ∷ parts

abbrev put_char : Char → String × List String → String × List String
put_char c (part, parts) =
    if is_space (code c) then ("", add_part part parts) else (String.◌∷◌ c part, parts)

-- The first part, which may be empty, and those behind it.
unfoldable pub split_spaces : String → String × List String
split_spaces String.[] = ("", [])
split_spaces (String.◌∷◌ c s) = put_char c (split_spaces s)

-- strings.Fields.
unfoldable pub fields : String → List String
unfolding split_spaces
fields s = add_part (split_spaces s).0 (split_spaces s).1

abbrev week_of : Option ℤ → Option ℕ
week_of (some (pos n)) = if eqb n 1 || eqb n 2 then some n else none
week_of _ = none

abbrev first_week : Option ℕ → Option ℕ → Option ℕ
first_week (some n) rest = some n
first_week none rest = rest

unfoldable pub week_of_parts : List String → Option ℕ
week_of_parts [] = none
week_of_parts (p ∷ parts) = first_week (week_of (atoi p)) (week_of_parts parts)

unfoldable pub week_number : String → Option ℕ
unfolding fields week_of_parts
week_number week = if trim_space week == "" then none else week_of_parts (fields week)

-- The bytes of a code point in UTF-8.
abbrev utf8_char : ℕ → List ℕ
utf8_char c =
    if ltb c 0x80
    then c ∷ []
    else if ltb c 0x800
    then (0xc0 + c / 0x40) ∷ (0x80 + c % 0x40) ∷ []
    else if ltb c 0x10000
    then (0xe0 + c / 0x1000) ∷ (0x80 + c / 0x40 % 0x40) ∷ (0x80 + c % 0x40) ∷ []
    else (0xf0 + c / 0x40000)
      ∷ (0x80 + c / 0x1000 % 0x40)
      ∷ (0x80 + c / 0x40 % 0x40)
      ∷ (0x80 + c % 0x40)
      ∷ []

unfoldable pub utf8 : String → List ℕ
utf8 String.[] = []
utf8 (String.◌∷◌ c s) = utf8_char (code c) ++ utf8 s

-- FNV-1a of 64 bits.
unfoldable pub fnv_bytes : ℕ → List ℕ → ℕ
fnv_bytes hash [] = hash
fnv_bytes hash (b ∷ bytes) = fnv_bytes (bit_xor hash b * 1_099_511_628_211 % 2 ^ 64) bytes

unfoldable pub sum64 : String → ℕ
unfolding utf8 fnv_bytes
sum64 key = fnv_bytes 14_695_981_039_346_656_037 (utf8 key)

-- `-int64(h % 9_000_000_000_000) - 1`.
unfoldable pub pseudo_telegram_id : String → ℤ
unfolding sum64
pseudo_telegram_id key = negsuc (sum64 key % 9_000_000_000_000)

-- INSERT INTO groups ... ON CONFLICT (group_name) DO NOTHING, which draws a number in any case.
unfoldable pub insert_group : String → Db → Db
insert_group name db = record db {
  groups =
      if any (λ g. g.group_name == name) db.groups
      then db.groups
      else record { id = suc db.group_seq; group_name = name } ∷ db.groups;
  group_seq = suc db.group_seq;
}

abbrev pub id_of_group : Option GroupRow → Option ℕ
id_of_group none = none
id_of_group (some g) = some g.id

unfoldable pub ensure_group : String → M Session Error ℕ
unfolding exec insert_group normalize_group
ensure_group group_name = do
  change (insert_group (normalize_group group_name))
  ask λ db. one_row (id_of_group (find (λ g. g.group_name == normalize_group group_name) db.groups))

-- INSERT INTO auditoriums ... ON CONFLICT (room_name) DO NOTHING.
unfoldable pub insert_room : String → Db → Db
insert_room name db = record db {
  auditoriums =
      if any (λ r. r.room_name == name) db.auditoriums
      then db.auditoriums
      else record { id = suc db.room_seq; room_name = name } ∷ db.auditoriums;
  room_seq = suc db.room_seq;
}

abbrev id_of_room : Option RoomRow → Option ℕ
id_of_room none = none
id_of_room (some r) = some r.id

abbrev pub room_name_or : String → String
room_name_or name = if name == "" then "Не указана" else name

unfoldable pub ensure_room : String → M Session Error ℕ
unfolding exec insert_room
ensure_room room_name = do
  change (insert_room (room_name_or room_name))
  ask λ db. one_row (id_of_room (find (λ r. r.room_name == room_name_or room_name) db.auditoriums))

abbrev pub is_named : String → Account (Option String) → Bool
is_named name t = elim t.about [ none ↦ false | some n ↦ n == name ]

abbrev pub fresh_teacher : ℤ → String → Db → Account (Option String)
fresh_teacher u name db = record {
  id = suc db.teacher_seq;
  user_id = u;
  about = some name;
  login = none;
  password = none;
}

-- INSERT INTO teachers (user_id, teacher_name) ... ON CONFLICT DO NOTHING.
unfoldable pub insert_teacher : ℤ → String → Db → Db
insert_teacher u name db = record db {
  teachers =
      if is_bound u db.teachers || any (is_named name) db.teachers
      then db.teachers
      else fresh_teacher u name db ∷ db.teachers;
  teacher_seq = suc db.teacher_seq;
}

abbrev id_of_teacher : Option (Account (Option String)) → Option ℕ
id_of_teacher none = none
id_of_teacher (some t) = some t.id

-- 'teacher_' || id::TEXT.
abbrev pub teacher_login : ℕ → String
teacher_login id = concat "teacher_" (itoa (pos id))

abbrev coalesce : Option String → String → Option String
coalesce none text = some text
coalesce (some s) text = some s

abbrev pub with_login : ℕ → Account (Option String) → Account (Option String)
with_login id t =
    if eqb t.id id
    then record t {
      login = coalesce t.login (teacher_login id);
      password = coalesce t.password (teacher_login id);
    }
    else t

abbrev has_login : String → Option String → Bool
has_login login none = false
has_login login (some l) = l == login

abbrev lacks_login : Option String → Bool
lacks_login none = true
lacks_login (some l) = false

-- idx_teachers_login: the login that a teacher would be given is another teacher's.
abbrev login_taken : ℕ → List (Account (Option String)) → Bool
login_taken id rows =
    any (λ t. eqb t.id id && lacks_login t.login) rows
    && any (λ t. not (eqb t.id id) && has_login (teacher_login id) t.login) rows

-- UPDATE teachers SET login = COALESCE(...), password = COALESCE(...) WHERE id = $1.
unfoldable pub give_login : ℕ → M Db Error (Unit {0})
give_login id db =
    if login_taken id db.teachers
    then (err (constraint "idx_teachers_login"), db)
    else (ok tt, record db { teachers = map (with_login id) db.teachers })

abbrev pub teacher_name_or : String → String
teacher_name_or name = if name == "" then "Не указан" else name

abbrev pub teacher_key : String → String
teacher_key name = concat "teacher:" name

-- The row of the name, and its login.
abbrev pub login_steps : String → M Session Error ℕ
login_steps name = do
  id ← ask (λ db. one_row (id_of_teacher (find (is_named name) db.teachers)))
  exec (give_login id)
  pure id

unfoldable pub ensure_teacher : String → M Session Error ℕ
unfolding exec pseudo_telegram_id insert_teacher give_login
ensure_teacher teacher_name = do
  let name = teacher_name_or teacher_name
  let u = pseudo_telegram_id (teacher_key name)
  change (λ db. record db { users = add_user u db.users })
  change (insert_teacher u name)
  login_steps name

-- The row that ensureLesson looks for, its start as PostgreSQL reads it.
pub record LessonKey : Type 0 where
  pub subject : String
  pub lesson_type : Option String
  pub weekday : ℕ
  pub start_time : String
  pub week : Option ℕ
  pub teacher_id : ℕ
  pub room_id : ℕ

abbrev text_or : Option String → String
text_or none = ""
text_or (some s) = s

abbrev number_or : Option ℕ → ℕ
number_or none = 0
number_or (some n) = n

-- WHERE subject = $1 AND COALESCE(lesson_type, '') = COALESCE($2, '') AND ...
abbrev pub matches_key : LessonKey → LessonRow → Bool
matches_key k l =
    l.subject == k.subject
    && (text_or l.lesson_type == text_or k.lesson_type
        && (eqb l.weekday k.weekday
            && (l.start_time == k.start_time
                && (eqb (number_or l.week) (number_or k.week)
                    && (eqb l.teacher_id k.teacher_id && eqb l.room_id k.room_id)))))

abbrev pub fresh_lesson : LessonKey → Db → LessonRow
fresh_lesson k db = record {
  id = suc db.lesson_seq;
  subject = k.subject;
  lesson_type = k.lesson_type;
  weekday = k.weekday;
  start_time = k.start_time;
  week = k.week;
  teacher_id = k.teacher_id;
  room_id = k.room_id;
}

-- The checks of the table lessons.
abbrev is_week : Option ℕ → Bool
is_week none = true
is_week (some n) = eqb n 1 || eqb n 2

abbrev pub is_lesson_valid : LessonKey → Bool
is_lesson_valid k = (leb 1 k.weekday && leb k.weekday 7) && is_week k.week

-- INSERT INTO lessons ... RETURNING id. The teacher and the room were read in the same transaction,
-- so the foreign keys hold, and no row was found, so the unique index does.
unfoldable pub insert_lesson : LessonKey → M Db Error ℕ
insert_lesson k db =
    if is_lesson_valid k
    then (
      ok (suc db.lesson_seq),
      record db { lessons = fresh_lesson k db ∷ db.lessons; lesson_seq = suc db.lesson_seq },
    )
    else (err (constraint "lessons_check"), record db { lesson_seq = suc db.lesson_seq })

-- `err == nil`, `err != sql.ErrNoRows`, or no row.
abbrev found_or_insert : LessonKey → Option LessonRow → M Session Error ℕ
found_or_insert k (some l) = pure l.id
found_or_insert k none = exec (insert_lesson k)

-- What UpsertGroupLesson makes of a parsed lesson.
unfoldable pub key_of_lesson : LessonStudent → ℕ → ℕ → LessonKey
unfolding null_string weekday_number week_number
key_of_lesson l teacher_id room_id = record {
  subject = l.subject;
  lesson_type = null_string l.lesson_type;
  weekday = weekday_number l.weekday;
  start_time = l.start_time;
  week = week_number l.week;
  teacher_id = teacher_id;
  room_id = room_id;
}

module _ (time_of : String → Result Error String) where
  unfoldable pub ensure_lesson : LessonKey → M Session Error ℕ
  unfolding exec insert_lesson
  ensure_lesson k = do
    start ← lift (time_of k.start_time)
    let key = record k { start_time = start }
    found ← ask (λ db. ok (find (matches_key key) db.lessons))
    found_or_insert key found

  abbrev is_lesson_group : ℕ → ℕ → LessonGroup → Bool
  is_lesson_group lesson_id group_id l = eqb l.lesson_id lesson_id && eqb l.group_id group_id

  -- INSERT INTO lesson_groups ... ON CONFLICT DO NOTHING.
  unfoldable pub link_lesson : ℕ → ℕ → Db → Db
  link_lesson lesson_id group_id db = record db {
    lesson_groups =
        if any (is_lesson_group lesson_id group_id) db.lesson_groups
        then db.lesson_groups
        else record { lesson_id = lesson_id; group_id = group_id } ∷ db.lesson_groups;
  }

  abbrev pub upsert_steps : String → LessonStudent → M Session Error (Unit {0})
  upsert_steps group_name l = do
    group_id ← ensure_group group_name
    teacher_id ← ensure_teacher (trim_space l.tutor)
    room_id ← ensure_room (trim_space l.room)
    lesson_id ← ensure_lesson (key_of_lesson l teacher_id room_id)
    change (link_lesson lesson_id group_id)

  unfoldable pub upsert_group_lesson : String → LessonStudent → M Session Error (Unit {0})
  unfolding exec transaction ensure_group ensure_teacher ensure_room ensure_lesson link_lesson
      key_of_lesson
  upsert_group_lesson group_name l = change (λ db. db) >> transaction (upsert_steps group_name l)

  -- The loop of fillGroupSchedule, under its lock: the first error ends it.
  unfoldable pub fill_lessons : String → List LessonStudent → M Session Error (Unit {0})
  unfolding upsert_group_lesson
  fill_lessons group_name [] = pure tt
  fill_lessons group_name (l ∷ lessons) =
      on_error "insert group lesson" (upsert_group_lesson group_name l)
      >> fill_lessons group_name lessons

  unfoldable pub fill_group_schedule : String → List LessonStudent → M Session Error (Unit {0})
  unfolding fill_lessons normalize_group
  fill_group_schedule group_name lessons = fill_lessons (normalize_group group_name) lessons
