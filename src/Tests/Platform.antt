-- ===== src/Tests/Platform.antt =====
-- The theorems on the adapters and the platform at concrete inputs.
use uban_z.Prelude.{
  pos, String, true, false, List, [], ◌∷◌, ◌++◌, map, some, ok, ◌≡◌, refl, arith, All, trim_space,
  is_space,
}
use uban_z.Parser.Domain.{LessonRoom}
use uban_z.Page.{Cell, Table, Document, rest_of}
use uban_z.Parser.Source.{Urls, Web, HttpParser, fetch, resolve, parse_lessons_room}
use uban_z.Parser.Source.Lessons.{IsReadable, parse_lessons_room-IsReadable}
use uban_z.Platform.Logging.{Event, writes, runs, schedule, new_writer}
use uban_z.Platform.Logging.Delivery.{IsFaithful, answered, schedule-sent}

abbrev urls : Urls
urls = record {
  Url = String;
  parse = λ s. ok s;
  has_scheme = λ u. true;
  has_host = λ u. true;
  resolve_reference = λ base ref. ref;
  to_text = λ u. u;
}

abbrev lesson_cell : Cell
lesson_cell = record {
  lesson_type = "лек";
  subject = " Алгебра ";
  tutor = "Иванов";
  room = "3107";
  week = "";
  groups = "23204" ∷ " " ∷ [];
}

abbrev table : Table
table = record {
  headers = "Время" ∷ " Вторник " ∷ [];
  rows =
      []
      ∷ (record { label = "9:00"; cells = [] }
          ∷ record { label = ""; cells = lesson_cell ∷ [] }
          ∷ [])
      ∷ [];
}

abbrev page : Document
page = record { time_table = some table; items = []; faculties = []; groups = [] }

abbrev web : Web
web = record {
  new_request = λ u. ok tt;
  get = λ u. ok (record { status = 200; body = "" });
  parse_html = λ s. ok page;
  quote = λ s. s;
  first_bytes = λ n s. s;
  to_lower = λ s. s;
}

abbrev parser : HttpParser urls
parser = record { base_url = "https://table.nsu.ru"; timeout = pos 30 }

abbrev lessons : List LessonRoom
lessons =
    record {
      subject = "Алгебра";
      lesson_type = "лек";
      teacher = "Иванов";
      start_time = "9:00";
      weekday = "Вторник";
      room = "3107";
      week = "";
      group_numbers = "23204" ∷ [];
    }
    ∷ []

parsed : parse_lessons_room urls web parser "/room/3107" ≡ ok lessons
unfolding parse_lessons_room trim_space is_space
parsed = refl

parse_lessons_room-IsReadable_example :
    (doc : Document) × (t : Table) × (fetch web (resolve urls parser "/room/3107") ≡ ok doc)
    × (doc.time_table ≡ some t)
    × All (IsReadable web.to_lower (map trim_space (rest_of t.headers))) lessons
parse_lessons_room-IsReadable_example =
    parse_lessons_room-IsReadable urls web parser "/room/3107" lessons parsed

-- A message, a connection that is refused, one that is made, and another message.
abbrev events : List Event
events = writes "a" ∷ runs false ∷ runs true ∷ writes "b" ∷ []

schedule-sent_example :
    IsFaithful (schedule events new_writer)
    × ((schedule (events ++ answered 2050) new_writer).sent ≡ (schedule events new_writer).accepted)
schedule-sent_example = schedule-sent events 2050 (omega arith)
