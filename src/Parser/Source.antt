-- ===== src/Parser/Source.antt =====
-- internal/adapter/parser/httpparser/parser.go: the timetable site as a source of rooms and lessons.
-- The HTTP client, the HTML parser, net/url and `strings.ToLower` are parameters.
pub mod Lessons
use uban_z.Prelude.{
  ℕ, ◌*◌, ℤ, pos, is_nonpositive, leb, String, Bool, true, false, not, ◌&&◌, ◌||◌, List, [], ◌∷◌,
  ◌++◌, map, filter, Option, none, some, ◌==◌, Result, ok, err, trim_space, has_prefix, itoa,
  if◌then◌else◌,
}
use Prim.Native.String
use uban_z.Clock.{second}
use uban_z.Booking.Domain.{Error, other, wrap}
use uban_z.Parser.Domain.{RoomSelector, LessonRoom}
use uban_z.Page.{Cell, Slot, Table, Link, Document, rest_of, extract_start_time}

-- What the parser uses of net/url.
pub record Urls : Type 1 where
  pub Url : Type 0
  pub parse : String → Result Error Url
  pub has_scheme : Url → Bool
  pub has_host : Url → Bool
  pub resolve_reference : Url → Url → Url
  pub to_text : Url → String

-- A response: its status and its body.
pub record Response : Type 0 where
  pub status : ℕ
  pub body : String

abbrev pub default_base_url : String
default_base_url = "https://table.nsu.ru"

abbrev pub rooms_path : String
rooms_path = "/room"

abbrev pub default_timeout : ℕ
default_timeout = 30 * second

abbrev pub lift_error :
    {A B : Type 0} → (Error → Error) → (A → Result Error B) → Result Error A → Result Error B
lift_error f next (ok a) = next a
lift_error f next (err e) = err (f e)

module _ (urls : Urls) where
  -- The fields of `Parser`; a timeout counts nanoseconds.
  pub record HttpParser : Type 0 where
    pub base_url : urls.Url
    pub timeout : ℤ

  unfoldable pub new : String → ℤ → Result Error HttpParser
  new base_url timeout =
      lift_error (wrap "parse parser base url")
        (λ parsed.
          if not (urls.has_scheme parsed) || not (urls.has_host parsed)
          then err (other "parser base url must include scheme and host")
          else ok (record {
            base_url = parsed;
            timeout = if is_nonpositive timeout then pos default_timeout else timeout;
          }))
        (urls.parse (if base_url == "" then default_base_url else base_url))

  abbrev resolved : HttpParser → String → Result Error urls.Url → String
  resolved p href (ok u) = urls.to_text (urls.resolve_reference p.base_url u)
  resolved p href (err e) = href

  unfoldable pub resolve : HttpParser → String → String
  resolve p href = resolved p href (urls.parse href)

-- Outside the program: requests, responses, the HTML parser and texts. `quote` is the verb %q,
-- `first_bytes` is `io.LimitReader`.
pub record Web : Type 0 where
  pub new_request : String → Result Error (Unit {0})
  pub get : String → Result Error Response
  pub parse_html : String → Result Error Document
  pub quote : String → String
  pub first_bytes : ℕ → String → String
  pub to_lower : String → String

abbrev concat : String → String → String
concat a b = String.◌++◌ a b

abbrev is_success : ℕ → Bool
is_success status = leb 200 status && not (leb 300 status)

abbrev status_error : Web → String → Response → Error
status_error web target r = other (
    concat "fetch " (
      concat (web.quote target) (
        concat ": status "
          (concat (itoa (pos r.status)) (concat ": " (trim_space (web.first_bytes 1024 r.body)))))))

abbrev about : Web → String → String → Error → Error
about web operation target = wrap (concat operation (web.quote target))

unfoldable pub fetch : Web → String → Result Error Document
fetch web target =
    lift_error (about web "new request " target)
      (λ _.
        lift_error (about web "fetch " target)
          (λ r.
            if not (is_success r.status)
            then err (status_error web target r)
            else lift_error (about web "parse html " target) ok (web.parse_html r.body))
          (web.get target))
      (web.new_request target)

-- ParseRooms passes on the links that have an address and a name.
unfoldable pub rooms_of : (String → String) → List Link → List RoomSelector
rooms_of resolve [] = []
rooms_of resolve (l ∷ links) =
    let rest = rooms_of resolve links in
    let name = trim_space l.label in
    elim l.href [
      | none ↦ rest
      | some href ↦
          if name == ""
          then rest
          else record { name = name; building = ""; capacity = pos 0; full_url = resolve href }
            ∷ rest
    ]

abbrev pub lift_value : {A B : Type 0} → (A → Result Error B) → Result Error A → Result Error B
lift_value f (ok a) = f a
lift_value f (err e) = err e

unfoldable pub parse_rooms :
    (urls : Urls) → Web → HttpParser urls → Result Error (List RoomSelector)
unfolding fetch resolve rooms_of
parse_rooms urls web p =
    lift_value (λ doc. ok (rooms_of (resolve urls p) doc.items))
      (fetch web (resolve urls p rooms_path))

abbrev pub reserved_prefix : String
reserved_prefix = "забронировано"

abbrev pub is_reserved_subject : (String → String) → String → Bool
is_reserved_subject to_lower subject = has_prefix (to_lower subject) reserved_prefix

-- The names in a list of texts: trimmed, and not empty.
unfoldable pub names_of : List String → List String
names_of [] = []
names_of (t ∷ texts) =
    let rest = names_of texts in if trim_space t == "" then rest else trim_space t ∷ rest

abbrev lesson_of : String → String → Cell → LessonRoom
lesson_of start_time weekday c = record {
  subject = trim_space c.subject;
  lesson_type = trim_space c.lesson_type;
  teacher = trim_space c.tutor;
  start_time = start_time;
  weekday = weekday;
  room = trim_space c.room;
  week = trim_space c.week;
  group_numbers = names_of c.groups;
}

module _ (to_lower : String → String) where
  abbrev pub is_skipped : String → Bool
  is_skipped subject = subject == "" || is_reserved_subject to_lower subject

  unfoldable pub lessons_of_cells : String → String → List Cell → List LessonRoom
  unfolding names_of has_prefix
  lessons_of_cells start_time weekday [] = []
  lessons_of_cells start_time weekday (c ∷ cells) =
      let rest = lessons_of_cells start_time weekday cells in
      if is_skipped (trim_space c.subject) then rest else lesson_of start_time weekday c ∷ rest

  -- The columns of a row, each with its day; a column without a day is left out.
  unfoldable pub lessons_of_columns : String → List String → List Slot → List LessonRoom
  unfolding lessons_of_cells
  lessons_of_columns start_time [] slots = []
  lessons_of_columns start_time (day ∷ days) [] = []
  lessons_of_columns start_time (day ∷ days) (s ∷ slots) =
      lessons_of_cells start_time day s.cells ++ lessons_of_columns start_time days slots

  unfoldable pub lessons_of_row : List String → List Slot → List LessonRoom
  unfolding lessons_of_columns extract_start_time
  lessons_of_row days [] = []
  lessons_of_row days (s ∷ slots) =
      let start_time = extract_start_time (trim_space s.label) in
      if start_time == "" then [] else lessons_of_columns start_time days slots

  unfoldable pub lessons_of_rows : List String → List (List Slot) → List LessonRoom
  unfolding lessons_of_row
  lessons_of_rows days [] = []
  lessons_of_rows days (r ∷ rows) = lessons_of_row days r ++ lessons_of_rows days rows

  -- The first row holds the names of the days, behind one cell more.
  unfoldable pub lessons_of_table : Table → List LessonRoom
  unfolding lessons_of_rows
  lessons_of_table t = lessons_of_rows (map trim_space (rest_of t.headers)) (rest_of t.rows)

abbrev lessons_of : (String → String) → Option Table → Result Error (List LessonRoom)
lessons_of to_lower none = err (other "time-table not found")
lessons_of to_lower (some t) = ok (lessons_of_table to_lower t)

unfoldable pub parse_lessons_room :
    (urls : Urls) → Web → HttpParser urls → String → Result Error (List LessonRoom)
unfolding fetch resolve lessons_of_table
parse_lessons_room urls web p room_url =
    lift_value (λ doc. lessons_of web.to_lower doc.time_table) (fetch web (resolve urls p room_url))
