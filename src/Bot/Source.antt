-- ===== src/Bot/Source.antt =====
-- timetable-homework-tgbot/internal/infrastracture/parser/parser.go and the types of
-- timetable-homework-tgbot/internal/domain/lesson and urlselector. The HTTP client, the HTML parser
-- and net/url are parameters. An error result is a panic: the other failures are logged, and the
-- lists are then empty.
pub mod Groups
pub mod SharedGroups
use Prim.Native.String
use uban_z.Prelude.{
  ℕ, leb, String, Bool, true, false, not, ◌&&◌, List, [], ◌∷◌, ◌++◌, map, any, Option, none, some,
  ◌==◌, Result, ok, err, trim_space, if◌then◌else◌,
}
use uban_z.Booking.Domain.{Error, other}
use uban_z.Page.{Cell, Slot, Table, Link, Document, rest_of, extract_start_time}
use uban_z.Parser.Source.{Urls, Response}

pub record LessonStudent : Type 0 where
  pub subject : String
  pub lesson_type : String
  pub tutor : String
  pub start_time : String
  pub weekday : String
  pub room : String
  pub week : String

pub record LessonTeacher : Type 0 where
  pub subject : String
  pub lesson_type : String
  pub groups : List String
  pub start_time : String
  pub weekday : String
  pub room : String
  pub week : String

pub record LessonRoom : Type 0 where
  pub subject : String
  pub lesson_type : String
  pub tutor : String
  pub start_time : String
  pub weekday : String
  pub groups : List String
  pub week : String

pub record Teacher : Type 0 where
  pub short_name : String
  pub full_name : String
  pub full_url : String

-- urlselector.Room and urlselector.Faculty.
pub record Place : Type 0 where
  pub name : String
  pub full_url : String

pub record Group : Type 0 where
  pub group_name : String
  pub group_url : String

abbrev pub teachers_page : String
teachers_page = "https://table.nsu.ru/teacher"

abbrev pub room_page : String
room_page = "https://table.nsu.ru/room"

abbrev pub faculties_page : String
faculties_page = "https://table.nsu.ru/faculties"

abbrev pub nsu_page : String
nsu_page = "https://table.nsu.ru"

-- The text of every "a.group" within the "div.groups" of the cells.
unfoldable pub groups_of_cells : List Cell → List String
groups_of_cells [] = []
groups_of_cells (c ∷ cells) = map trim_space c.groups ++ groups_of_cells cells

abbrev pub student_lesson : String → String → List Cell → Cell → LessonStudent
student_lesson start day cells c = record {
  subject = trim_space c.subject;
  lesson_type = trim_space c.lesson_type;
  tutor = trim_space c.tutor;
  start_time = start;
  weekday = day;
  room = trim_space c.room;
  week = trim_space c.week;
}

-- `cells.Find("div.groups")`: the groups are looked for in all the cells of the slot.
abbrev pub teacher_lesson : String → String → List Cell → Cell → LessonTeacher
teacher_lesson start day cells c = record {
  subject = trim_space c.subject;
  lesson_type = trim_space c.lesson_type;
  groups = groups_of_cells cells;
  start_time = start;
  weekday = day;
  room = trim_space c.room;
  week = trim_space c.week;
}

abbrev pub room_lesson : String → String → List Cell → Cell → LessonRoom
room_lesson start day cells c = record {
  subject = trim_space c.subject;
  lesson_type = trim_space c.lesson_type;
  tutor = trim_space c.tutor;
  start_time = start;
  weekday = day;
  groups = groups_of_cells cells;
  week = trim_space c.week;
}

-- What the three readers of a timetable share; `make` is the lesson of a cell in a slot.
module _ {L : Type 0} (make : String → String → List Cell → Cell → L) where
  unfoldable pub lessons_of_cells : String → String → List Cell → List Cell → List L
  lessons_of_cells start day all_cells [] = []
  lessons_of_cells start day all_cells (c ∷ cells) =
      let rest = lessons_of_cells start day all_cells cells in
      if trim_space c.subject == "" then rest else make start day all_cells c ∷ rest

  unfoldable pub lessons_of_columns : String → List String → List Slot → List L
  unfolding lessons_of_cells
  lessons_of_columns start [] slots = []
  lessons_of_columns start (day ∷ days) [] = []
  lessons_of_columns start (day ∷ days) (s ∷ slots) =
      lessons_of_cells start day s.cells s.cells ++ lessons_of_columns start days slots

  unfoldable pub lessons_of_row : List String → List Slot → List L
  unfolding lessons_of_columns extract_start_time
  lessons_of_row days [] = []
  lessons_of_row days (s ∷ slots) =
      let start = extract_start_time s.label in
      if start == "" then [] else lessons_of_columns start days slots

  unfoldable pub lessons_of_rows : List String → List (List Slot) → List L
  unfolding lessons_of_row
  lessons_of_rows days [] = []
  lessons_of_rows days (r ∷ rows) = lessons_of_row days r ++ lessons_of_rows days rows

  -- No lesson if there is no table.
  unfoldable pub lessons_of_table : Option Table → List L
  unfolding lessons_of_rows
  lessons_of_table none = []
  lessons_of_table (some t) = lessons_of_rows (rest_of t.headers) (rest_of t.rows)

-- What the parser does with the address of a page.
pub record Site : Type 0 where
  pub get : String → Result Error Response
  pub parse_html : String → Result Error Document

abbrev concat : String → String → String
concat a b = String.◌++◌ a b

abbrev is_success : ℕ → Bool
is_success status = leb 200 status && not (leb 300 status)

-- `if err != nil { log; return nothing }` at the request, then a page that is read whatever its
-- status is.
abbrev pub read_page :
    {A : Type 0} → A → (Result Error Document → Result Error A) → Site → String → Result Error A
read_page nothing read site page = elim (site.get page) [
  | err e ↦ ok nothing
  | ok r ↦ read (site.parse_html r.body)
]

-- A page that is no HTML is logged in one reader and a panic in another.
abbrev pub or_nothing : {A : Type 0} → A → (Document → A) → Result Error Document → Result Error A
or_nothing nothing read (ok doc) = ok (read doc)
or_nothing nothing read (err e) = ok nothing

abbrev pub or_panic :
    {A : Type 0} → (Document → Result Error A) → Result Error Document → Result Error A
or_panic read (ok doc) = read doc
or_panic read (err e) = err e

unfoldable pub parse_lessons_student : Site → String → List LessonStudent
unfolding lessons_of_table
parse_lessons_student site group_url = elim (site.get (concat nsu_page group_url)) [
  | err e ↦ []
  | ok r ↦ if not (is_success r.status) then [] else elim (site.parse_html r.body) [
    | err e ↦ []
    | ok doc ↦ lessons_of_table student_lesson doc.time_table
  ]
]

unfoldable pub parse_lessons_teacher : Site → String → Result Error (List LessonTeacher)
unfolding lessons_of_table
parse_lessons_teacher =
    read_page [] (or_nothing [] (λ doc. lessons_of_table teacher_lesson doc.time_table))

unfoldable pub parse_lessons_room : Site → String → Result Error (List LessonRoom)
unfolding lessons_of_table
parse_lessons_room =
    read_page [] (or_panic (λ doc. ok (lessons_of_table room_lesson doc.time_table)))

-- An attribute that is missing is empty.
abbrev pub attr : Option String → String
attr none = ""
attr (some s) = s

-- A call on the nil that `url.Parse` returns with an error.
abbrev nil_url : Error
nil_url = other "runtime error: invalid memory address or nil pointer dereference"

abbrev resolved :
    (urls : Urls) → Result Error urls.Url → Result Error urls.Url → Result Error String
resolved urls (ok base) (ok ref) = ok (urls.to_text (urls.resolve_reference base ref))
resolved urls _ _ = err nil_url

unfoldable pub abs : Urls → String → String → Result Error String
abs urls base href = resolved urls (urls.parse base) (urls.parse href)

-- `Each` over links: a panic ends it.
unfoldable pub each : {A : Type 0} → (Link → Result Error A) → List Link → Result Error (List A)
each f [] = ok []
each f (l ∷ links) =
    let rest = each f links in
    elim (f l) [ err e ↦ err e | ok a ↦ elim rest [ ok as' ↦ ok (a ∷ as') | err e ↦ err e ] ]

abbrev with_url : {A : Type 0} → (String → A) → Result Error String → Result Error A
with_url f (ok u) = ok (f u)
with_url f (err e) = err e

module _ (urls : Urls) where
  unfoldable pub parse_teachers : Site → Result Error (List Teacher)
  unfolding abs each
  parse_teachers site =
      read_page []
        (or_panic λ doc.
          each
            (λ l.
              with_url
                (λ u. record {
                  short_name = trim_space l.label;
                  full_name = attr l.title;
                  full_url = u;
                })
                (abs urls teachers_page (attr l.href)))
            doc.items)
        site teachers_page

  abbrev pub place_on : String → Link → Result Error Place
  place_on page l =
      with_url (λ u. record { name = trim_space l.label; full_url = u })
        (abs urls page (attr l.href))

  unfoldable pub parse_rooms : Site → Result Error (List Place)
  unfolding abs each
  parse_rooms site =
      read_page [] (or_panic λ doc. each (place_on room_page) doc.items) site room_page

  unfoldable pub parse_faculties : Site → Result Error (List Place)
  unfolding abs each
  parse_faculties site =
      read_page [] (or_panic λ doc. each (place_on faculties_page) doc.faculties) site
        faculties_page

abbrev pub group_of_link : Link → Group
group_of_link l = record { group_name = trim_space l.label; group_url = attr l.href }

-- name + "|" + href.
abbrev pub key_of : Group → String
key_of g = concat g.group_name (concat "|" g.group_url)

abbrev pub is_seen : String → List String → Bool
is_seen key seen = any (λ k. k == key) seen

-- A group is added once; `seen` holds the keys of those that were added.
unfoldable pub groups_of_links : List String → List Link → List Group
groups_of_links seen [] = []
groups_of_links seen (l ∷ links) =
    let g = group_of_link l in
    let old = groups_of_links seen links in
    let new = g ∷ groups_of_links (key_of g ∷ seen) links in
    if is_seen (key_of g) seen then old else new

unfoldable pub parse_groups : Site → String → Result Error (List Group)
unfolding groups_of_links
parse_groups site faculty_url =
    read_page [] (or_panic (λ doc. ok (groups_of_links [] doc.groups))) site faculty_url
