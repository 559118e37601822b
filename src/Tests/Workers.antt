-- ===== src/Tests/Workers.antt =====
-- The theorems on the import's workers at one group.
use uban_z.Prelude.{trim_space, is_space, ok, M, [], ◌∷◌, none, some, ◌≡◌, refl, arith, Bool}
use uban_z.Bot.Session.{Error, message, Session, wrapped, calm, refused}
use uban_z.Bot.Source.{Group, Site, parse_lessons_student}
use uban_z.Bot.Fill.{fill_group_schedule}
use uban_z.Page.{Cell, Document}
use uban_z.Tests.BotData.{db}
use uban_z.Bot.Workers.{
  save_group, save_in_turn, Pool, start, result, by_end, send, sent_all, take, leave, saved, return,
  Reach, here, next,
}
use uban_z.Bot.Workers.Whole.{count}
use uban_z.Bot.Workers.Progress.{start_processed}

abbrev first_group : Group
first_group = record { group_name = "23204"; group_url = "/group/23204" }

abbrev second_group : Group
second_group = record { group_name = "23205"; group_url = "/group/23205" }

abbrev monday_cell : Cell
monday_cell = record {
  lesson_type = "лек";
  subject = "Геометрия";
  tutor = "Петров";
  room = "3107";
  week = "";
  groups = [];
}

-- Each page has one lesson.
abbrev page : Document
page = record {
  time_table = some (record {
    headers = "Время" ∷ "Понедельник" ∷ [];
    rows =
        []
        ∷ (record { label = "9:00"; cells = [] }
            ∷ record { label = ""; cells = monday_cell ∷ [] }
            ∷ [])
        ∷ [];
  });
  items = [];
  faculties = [];
  groups = [];
}

abbrev site : Site
site = record {
  get = λ url. ok (record { status = 200; body = url });
  parse_html = λ body. ok page;
}

abbrev saving : Group → M Session Error (Unit {0})
saving = save_group (λ text. ok text) site

-- The second statement of a session finds the connection closed.
abbrev broken : Session
broken = record { db = db; faults = none ∷ some (refused (message "connection reset")) ∷ [] }

abbrev failure : Error
failure =
    wrapped "fill group schedule 23204" (wrapped "insert group lesson" (message "connection reset"))

first_saved : saving first_group (calm db) ≡ (ok tt, (saving first_group (calm db)).1)
unfolding save_group fill_group_schedule parse_lessons_student trim_space is_space
first_saved = refl

-- The group is saved, all workers leave, and the import returns.
all_done : (p : Pool) × Reach saving (start (calm db) (first_group ∷ [])) 25 p
all_done = (
  _,
  next
      (next
        (next
          (next
            (next
              (next
                (next
                  (next
                    (next
                      (next
                        (next
                          (next
                            (next
                              (next
                                (next
                                  (next
                                    (next
                                      (next
                                        (next
                                          (next
                                            (next
                                              (next
                                                (next
                                                  (next
                                                    (next here (
                                                      send _ first_group [] refl refl
                                                        (omega arith)))
                                                    (take _ 19 first_group [] refl refl))
                                                  (saved _ [] [] first_group
                                                    (saving first_group (calm db)).1 refl
                                                    first_saved))
                                                (sent_all _ refl refl))
                                              (leave _ 19 by_end refl refl refl))
                                            (leave _ 18 by_end refl refl refl))
                                          (leave _ 17 by_end refl refl refl))
                                        (leave _ 16 by_end refl refl refl))
                                      (leave _ 15 by_end refl refl refl))
                                    (leave _ 14 by_end refl refl refl))
                                  (leave _ 13 by_end refl refl refl))
                                (leave _ 12 by_end refl refl refl))
                              (leave _ 11 by_end refl refl refl))
                            (leave _ 10 by_end refl refl refl))
                          (leave _ 9 by_end refl refl refl))
                        (leave _ 8 by_end refl refl refl))
                      (leave _ 7 by_end refl refl refl))
                    (leave _ 6 by_end refl refl refl))
                  (leave _ 5 by_end refl refl refl))
                (leave _ 4 by_end refl refl refl))
              (leave _ 3 by_end refl refl refl))
            (leave _ 2 by_end refl refl refl))
          (leave _ 1 by_end refl refl refl))
        (leave _ 0 by_end refl refl refl))
      (return _ by_end refl refl refl),
)

start_processed_example :
    ((q : Group → Bool) → count q all_done.0.processed ≡ count q (first_group ∷ []))
    × (save_in_turn saving all_done.0.processed (calm db) ≡ (ok tt, all_done.0.store))
unfolding all_done result
start_processed_example =
    start_processed saving (calm db) (first_group ∷ []) 25 all_done.0 all_done.1 refl
