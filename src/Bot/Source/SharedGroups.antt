-- ===== src/Bot/Source/SharedGroups.antt =====
-- Which groups the lessons of one slot are given.
use uban_z.Prelude.{
  arith, String, List, [], ◌∷◌, ◌++◌, map, some, ok, ◌==◌, ◌≡◌, refl, inl, inr, ◌⊎◌, All, subst,
  All-append, Among, Among-map, Bool-cases, trim_space,
}
use uban_z.Parser.Source.{Response}
use uban_z.Page.{Cell, Slot, Table, Document, rest_of, extract_start_time}
use uban_z.Bot.Source.{
  Site, LessonTeacher, LessonRoom, groups_of_cells, teacher_lesson, room_lesson, lessons_of_cells,
  lessons_of_columns, lessons_of_row, lessons_of_rows, lessons_of_table, parse_lessons_teacher,
  parse_lessons_room,
}

Among-append : {A : Type 0} (a : A) (xs ys : List A) → Among a xs ⊎ Among a ys → Among a (xs ++ ys)
Among-append a [] ys (inl m) = elim m [ ]
Among-append a [] ys (inr m) = m
Among-append a (x ∷ xs) ys (inl (inl e)) = inl e
Among-append a (x ∷ xs) ys (inl (inr m)) = inr (Among-append a xs ys (inl m))
Among-append a (x ∷ xs) ys (inr m) = inr (Among-append a xs ys (inr m))

groups_of_cells-all :
    (cells : List Cell) (c : Cell) (g : String)
    → Among c cells
    → Among g c.groups
    → Among (trim_space g) (groups_of_cells cells)
unfolding groups_of_cells
groups_of_cells-all [] c g m k = elim m [ ]
groups_of_cells-all (x ∷ cells) c g (inl e) k =
    Among-append (trim_space g) (map trim_space x.groups) (groups_of_cells cells)
      (inl (Among-map trim_space g x.groups (subst (λ (y : Cell). Among g y.groups) e k)))
groups_of_cells-all (x ∷ cells) c g (inr m) k =
    Among-append (trim_space g) (map trim_space x.groups) (groups_of_cells cells)
      (inr (groups_of_cells-all cells c g m k))

-- A lesson was read from a cell of a slot of the table, and has the groups of every cell there.
pub record IsOfSlot (t : Table) (subject : String) (groups : List String) : Type 0 where
  pub row : List Slot
  pub slot : Slot
  pub cell : Cell
  pub in_table : Among row (rest_of t.rows)
  pub in_row : Among slot row
  pub in_slot : Among cell slot.cells
  pub subject_kept : subject ≡ trim_space cell.subject
  pub shared :
      (c : Cell) (g : String) → Among c slot.cells → Among g c.groups → Among (trim_space g) groups

-- A predicate of all lessons of the table holds of those that are read.
module _ {L : Type 0} (make : String → String → List Cell → Cell → L) (P : L → Type 0) where
  abbrev MadeOf : List Cell → Cell → Type 0
  MadeOf cells c = (start day : String) → P (make start day cells c)

  cells-All :
      (start day : String) (all_cells cells : List Cell)
      → ((c : Cell) → Among c cells → MadeOf all_cells c)
      → All P (lessons_of_cells make start day all_cells cells)
  unfolding lessons_of_cells
  cells-All start day all_cells [] h = tt
  cells-All start day all_cells (c ∷ cells) h =
      let rest = cells-All start day all_cells cells (λ x m. h x (inr m)) in
      elim (Bool-cases (trim_space c.subject == "")) [
        | inl e ↦ rw e rest
        | inr e ↦ rw e (h c (inl refl) start day, rest)
      ]

  abbrev SlotsMade : List Slot → Type 0
  SlotsMade slots = (s : Slot) (c : Cell) → Among s slots → Among c s.cells → MadeOf s.cells c

  columns-All :
      (start : String) (days : List String) (slots : List Slot)
      → SlotsMade slots
      → All P (lessons_of_columns make start days slots)
  unfolding lessons_of_columns
  columns-All start [] slots h = tt
  columns-All start (day ∷ days) [] h = tt
  columns-All start (day ∷ days) (s ∷ slots) h =
      All-append P (lessons_of_cells make start day s.cells s.cells)
        (lessons_of_columns make start days slots)
        (cells-All start day s.cells s.cells (λ c m. h s c (inl refl) m))
        (columns-All start days slots (λ x c m. h x c (inr m)))

  row-All :
      (days : List String) (slots : List Slot)
      → SlotsMade slots
      → All P (lessons_of_row make days slots)
  unfolding lessons_of_row
  row-All days [] h = tt
  row-All days (s ∷ slots) h = elim (Bool-cases (extract_start_time s.label == "")) [
    | inl e ↦ rw e tt
    | inr e ↦ rw e (columns-All (extract_start_time s.label) days slots (λ x c m. h x c (inr m)))
  ]

  rows-All :
      (days : List String) (rows : List (List Slot))
      → ((r : List Slot) → Among r rows → SlotsMade r)
      → All P (lessons_of_rows make days rows)
  unfolding lessons_of_rows
  rows-All days [] h = tt
  rows-All days (r ∷ rows) h =
      All-append P (lessons_of_row make days r) (lessons_of_rows make days rows)
        (row-All days r (h r (inl refl))) (rows-All days rows (λ x m. h x (inr m)))

module _ (site : Site) (url : String) (r : Response) (doc : Document) (t : Table) where
  teacher_page :
      doc.time_table ≡ some t
      → All (λ l. IsOfSlot t l.subject l.groups) (lessons_of_table teacher_lesson doc.time_table)
  unfolding lessons_of_table
  teacher_page h = rw h (
      rows-All teacher_lesson (λ l. IsOfSlot t l.subject l.groups) (rest_of t.headers)
        (rest_of t.rows)
        (λ row m slot c k n start day. record {
          row = row;
          slot = slot;
          cell = c;
          in_table = m;
          in_row = k;
          in_slot = n;
          subject_kept = refl;
          shared = groups_of_cells-all slot.cells;
        }))

  room_page_lessons :
      doc.time_table ≡ some t
      → All (λ l. IsOfSlot t l.subject l.groups) (lessons_of_table room_lesson doc.time_table)
  unfolding lessons_of_table
  room_page_lessons h = rw h (
      rows-All room_lesson (λ l. IsOfSlot t l.subject l.groups) (rest_of t.headers) (rest_of t.rows)
        (λ row m slot c k n start day. record {
          row = row;
          slot = slot;
          cell = c;
          in_table = m;
          in_row = k;
          in_slot = n;
          subject_kept = refl;
          shared = groups_of_cells-all slot.cells;
        }))

  -- On a page with a timetable that can be read, the readers of teachers' and of rooms' lessons
  -- give only lessons of the cells of the table, and give each of them the groups of all the cells
  -- of its slot.
  pub page_lessons-IsOfSlot :
      site.get url ≡ ok r
      → site.parse_html r.body ≡ ok doc
      → doc.time_table ≡ some t
      → ((lessons : List LessonTeacher) × (parse_lessons_teacher site url ≡ ok lessons)
          × All (λ l. IsOfSlot t l.subject l.groups) lessons)
        × ((lessons : List LessonRoom) × (parse_lessons_room site url ≡ ok lessons)
            × All (λ l. IsOfSlot t l.subject l.groups) lessons)
  unfolding parse_lessons_teacher parse_lessons_room
  page_lessons-IsOfSlot got parsed h = (
    (lessons_of_table teacher_lesson doc.time_table, ground (arith, got, parsed), teacher_page h),
    (lessons_of_table room_lesson doc.time_table, ground (arith, got, parsed), room_page_lessons h),
  )
