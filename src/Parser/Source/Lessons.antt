-- ===== src/Parser/Source/Lessons.antt =====
-- What the import service can rely on in the lessons that the site yields.
use uban_z.Prelude.{
  ℕ, String, false, List, [], ◌∷◌, map, some, ◌==◌, eq_iff, ok, err, trim_space, ◌≡◌, ◌≢◌, refl,
  subst, inl, inr, arith, All, All-append, Among, Bool-cases, Option-cases, Result-cases,
}
use uban_z.Parser.Domain.{LessonRoom}
use uban_z.Parser.Times.{find_clock}
use uban_z.Page.{Cell, Slot, Table, Document, rest_of, extract_start_time}
use uban_z.Page.StartTime.{extract_start_time-IsClock, find_clock-IsClock}
use uban_z.Parser.Source.{
  Urls, Web, HttpParser, fetch, resolve, names_of, is_skipped, is_reserved_subject,
  lessons_of_cells, lessons_of_columns, lessons_of_row, lessons_of_rows, lessons_of_table,
  parse_lessons_room,
}

-- A lesson of a timetable with these days: it has a subject that is no reservation, one of the days, groups with names, and a start that the import can read as a clock time.
pub record IsReadable (to_lower : String → String) (days : List String) (l : LessonRoom)
    : Type 0 where
  pub named : l.subject ≢ ""
  pub lesson : is_reserved_subject to_lower l.subject ≡ false
  pub on_day : Among l.weekday days
  pub groups : All (λ g. g ≢ "") l.group_numbers
  pub clock : (time : ℕ × ℕ) × (find_clock l.start_time ≡ some time)

names_of-named : (texts : List String) → All (λ g. g ≢ "") (names_of texts)
unfolding names_of
names_of-named [] = tt
names_of-named (t ∷ texts) = ground (arith, eq_iff (trim_space t) "", names_of-named texts)

has_clock :
    (text : String)
    → (extract_start_time text == "") ≡ false
    → (time : ℕ × ℕ) × (find_clock (extract_start_time text) ≡ some time)
has_clock text found = elim (extract_start_time-IsClock text) [
  | inl e ↦ absurd (cc ((eq_iff (extract_start_time text) "").1 e))
  | inr c ↦ find_clock-IsClock (extract_start_time text) c
]

module _ (to_lower : String → String) (all_days : List String) where
  abbrev Readable : LessonRoom → Type 0
  Readable = IsReadable to_lower all_days

  cells-Readable :
      (start day : String)
      → (time : ℕ × ℕ) × (find_clock start ≡ some time)
      → Among day all_days
      → (cells : List Cell) → All Readable (lessons_of_cells to_lower start day cells)
  unfolding lessons_of_cells
  cells-Readable start day clock known [] = tt
  cells-Readable start day clock known (c ∷ cells) =
      elim (Bool-cases (is_skipped to_lower (trim_space c.subject))) [
        | inl e ↦ rw e (cells-Readable start day clock known cells)
        | inr e ↦ rw e (
          record {
            named = λ p. ground (arith, eq_iff (trim_space c.subject) "");
            lesson = ground arith;
            on_day = known;
            groups = names_of-named c.groups;
            clock = clock;
          },
          cells-Readable start day clock known cells,
        )
      ]

  columns-Readable :
      (start : String)
      → (time : ℕ × ℕ) × (find_clock start ≡ some time)
      → (days : List String) (slots : List Slot)
      → ((day : String) → Among day days → Among day all_days)
      → All Readable (lessons_of_columns to_lower start days slots)
  unfolding lessons_of_columns
  columns-Readable start clock [] slots known = tt
  columns-Readable start clock (day ∷ days) [] known = tt
  columns-Readable start clock (day ∷ days) (s ∷ slots) known =
      All-append Readable (lessons_of_cells to_lower start day s.cells)
        (lessons_of_columns to_lower start days slots)
        (cells-Readable start day clock (known day (inl refl)) s.cells)
        (columns-Readable start clock days slots (λ d m. known d (inr m)))

  row-Readable : (slots : List Slot) → All Readable (lessons_of_row to_lower all_days slots)
  unfolding lessons_of_row
  row-Readable [] = tt
  row-Readable (s ∷ slots) = elim (Bool-cases (extract_start_time (trim_space s.label) == "")) [
    | inl e ↦ rw e tt
    | inr e ↦ rw e (
        columns-Readable (extract_start_time (trim_space s.label))
          (has_clock (trim_space s.label) e) all_days slots (λ d m. m))
  ]

  rows-Readable : (rows : List (List Slot)) → All Readable (lessons_of_rows to_lower all_days rows)
  unfolding lessons_of_rows
  rows-Readable [] = tt
  rows-Readable (r ∷ rows) =
      All-append Readable (lessons_of_row to_lower all_days r)
        (lessons_of_rows to_lower all_days rows) (row-Readable r) (rows-Readable rows)

-- When `ParseLessonsRoom` returns lessons, its page was fetched and has a timetable, and each
-- lesson has a subject that is no reservation, a weekday among those of the timetable, groups with
-- names, and a start time in which the import finds a clock time.
pub parse_lessons_room-IsReadable :
    (urls : Urls) (web : Web) (p : HttpParser urls) (room_url : String) (lessons : List LessonRoom)
    → parse_lessons_room urls web p room_url ≡ ok lessons
    → (doc : Document) × (t : Table) × (fetch web (resolve urls p room_url) ≡ ok doc)
      × (doc.time_table ≡ some t)
      × All (IsReadable web.to_lower (map trim_space (rest_of t.headers))) lessons
unfolding parse_lessons_room lessons_of_table
parse_lessons_room-IsReadable urls web p room_url lessons h =
    elim (Result-cases (fetch web (resolve urls p room_url))) [
      | inr (e, f) ↦ absurd (let q : err e ≡ ok lessons = rw f at h in cc)
      | inl (doc, f) ↦ elim (Option-cases doc.time_table) [
        | inl n ↦ absurd (ground arith)
        | inr (t, s) ↦
            let days = map trim_space (rest_of t.headers) in
            let same : lessons_of_rows web.to_lower days (rest_of t.rows) ≡ lessons =
              ground arith in
            (
              doc,
              t,
              f,
              s,
              subst (All (IsReadable web.to_lower days)) same
                  (rows-Readable web.to_lower days (rest_of t.rows)),
            )
      ]
    ]
