-- ===== src/Page.antt =====
-- The pages of the timetable site, as goquery's selections see them, and how both parsers read them:
-- internal/adapter/parser/httpparser/parser.go and
-- timetable-homework-tgbot/internal/infrastracture/parser/parser.go. Texts are those of `Text()`,
-- not yet trimmed; `First()` of an empty selection has the empty text.
pub mod StartTime
use Prim.Native.Char.{Char, code}
use Prim.Native.String
use uban_z.Prelude.{
  ℕ, String, Bool, true, false, not, ◌&&◌, ◌||◌, List, [], ◌∷◌, map, Option, none, some, leb, eqb,
  if◌then◌else◌,
}
use uban_z.Parser.Times.{is_digit, first_some}

-- A "div.cell": the texts of its "span.type", "div.subject", "a.tutor", "div.room a" and
-- "div.week", and those of the "a.group" within its "div.groups".
pub record Cell : Type 0 where
  pub lesson_type : String
  pub subject : String
  pub tutor : String
  pub room : String
  pub week : String
  pub groups : List String

-- A "td".
pub record Slot : Type 0 where
  pub label : String
  pub cells : List Cell

-- The first "table.time-table": the "th" of the first "tr", and the "td" of every "tr".
pub record Table : Type 0 where
  pub headers : List String
  pub rows : List (List Slot)

-- A link with its text, and its "title" and "href" where it has them.
pub record Link : Type 0 where
  pub label : String
  pub title : Option String
  pub href : Option String

-- The selections "table.time-table", "a.tutors_item", "a.faculty" and "a.group".
pub record Document : Type 0 where
  pub time_table : Option Table
  pub items : List Link
  pub faculties : List Link
  pub groups : List Link

abbrev pub rest_of {ℓ} : {A : Type ℓ} → List A → List A
rest_of [] = []
rest_of (x ∷ xs) = xs

-- RE2's `\w`.
abbrev pub is_word : Char → Bool
is_word c =
    is_digit c
    || ((leb b'a' (code c) && leb (code c) b'z')
        || ((leb b'A' (code c) && leb (code c) b'Z') || eqb (code c) b'_'))

abbrev pub starts_word : String → Bool
starts_word String.[] = false
starts_word (String.◌∷◌ c s) = is_word c

abbrev pub prefixed : Char → Option String → Option String
prefixed c none = none
prefixed c (some t) = some (String.◌∷◌ c t)

-- `:\d{2}\b` at the head of a text.
unfoldable pub match_minutes : String → Option String
match_minutes (String.◌∷◌ c (String.◌∷◌ d (String.◌∷◌ e s))) =
    if eqb (code c) b':' && (is_digit d && (is_digit e && not (starts_word s)))
    then some (String.◌∷◌ ":" (String.◌∷◌ d (String.◌∷◌ e String.[])))
    else none
match_minutes s = none

-- `\d{1,2}:\d{2}\b` behind a digit that is the first: two digits are tried before one.
unfoldable pub match_two : Char → String → Option String
unfolding match_minutes
match_two a String.[] = none
match_two a (String.◌∷◌ b s) =
    if is_digit b then prefixed a (prefixed b (match_minutes s)) else none

unfoldable pub match_time : Char → String → Option String
unfolding match_two
match_time a s =
    if is_digit a then first_some (match_two a s) (prefixed a (match_minutes s)) else none

abbrev found_or : String → Option String → String
found_or rest none = rest
found_or rest (some t) = t

-- The leftmost match, where the character before may be one of a word.
unfoldable pub find_time : Bool → String → String
unfolding match_time
find_time in_word String.[] = ""
find_time in_word (String.◌∷◌ c s) =
    let rest = find_time (is_word c) s in if in_word then rest else found_or rest (match_time c s)

-- `timePattern.FindString`.
unfoldable pub extract_start_time : String → String
unfolding find_time
extract_start_time text = find_time false text
