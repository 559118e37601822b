-- ===== src/Bot/Workers.antt =====
-- fillGroupsParallel of timetable-homework-tgbot/internal/infrastracture/database/fill_database.go:
-- one loop hands the groups to twenty workers over a channel, and the first error ends it. What the
-- processes do in turn is a step relation; when the caller's context ends is a choice of the steps. The
-- lessons of a group are saved in one step, as under timetableSaveMu; a statement that fails because
-- the context has ended is a fault of the session. A worker that fails reports its error and cancels
-- in one step: when the loop finds the error in between, it cancels itself.
pub mod Order
pub mod Progress
pub mod Replay
pub mod Whole
use uban_z.Prelude.{
  ℕ, suc, String, Result, ok, err, M, ◌>>=◌, ◌>>◌, pure, ◌+◌, ◌-◌, ◌<◌, Bool, true, false, List, [],
  ◌∷◌, ◌++◌, length, Option, none, some, ◌≡◌, if◌then◌else◌,
}
use Prim.Native.String
use uban_z.Booking.Domain
use uban_z.Parser.Source.{Urls}
use uban_z.Bot.Session.{Error, message, Session, on_error}
use uban_z.Bot.Source.{Group, Place, Site, parse_faculties, parse_groups, parse_lessons_student}
use uban_z.Bot.Fill.{fill_group_schedule}

abbrev pub workers : ℕ
workers = 20

-- All groups of all faculties.
unfoldable pub groups_of_faculties : Site → List Place → Result Domain.Error (List Group)
groups_of_faculties site [] = ok []
groups_of_faculties site (f ∷ faculties) =
    let rest = groups_of_faculties site faculties in
    elim (parse_groups site f.full_url) [
      | err e ↦ err e
      | ok groups ↦ elim rest [ err e ↦ err e | ok others ↦ ok (groups ++ others) ]
    ]

unfoldable pub collect_groups : Urls → Site → Result Domain.Error (List Group)
unfolding groups_of_faculties
collect_groups urls site = elim (parse_faculties urls site) [
  | err e ↦ err e
  | ok faculties ↦ groups_of_faculties site faculties
]

-- What a worker does for a group.
unfoldable pub save_group :
    (String → Result Error String) → Site → Group → M Session Error (Unit {0})
save_group time_of site g =
    on_error (String.◌++◌ "fill group schedule " g.group_name)
      (fill_group_schedule time_of g.group_name (parse_lessons_student site g.group_url))

abbrev pub Saving : Type 0
Saving = Group → M Session Error (Unit {0})

-- The groups saved one after the other, from the end of the list on.
unfoldable pub save_in_turn : Saving → List Group → M Session Error (Unit {0})
save_in_turn save [] = pure tt
save_in_turn save (g ∷ earlier) = save_in_turn save earlier >> save g

-- How the loop over the groups ended: with an error from the channel of errors, because the context
-- was cancelled, or behind the last group.
pub data Ending : Type 0 where
  by_error : Error → Ending
  by_cancel : Ending
  by_end : Ending

-- After the loop the channel is closed, and the workers are waited for.
pub data Phase : Type 0 where
  sending : Phase
  waiting : Ending → Phase
  returned : Option Error → Phase

-- `jobs` is the channel's buffer, `busy` the groups that workers are at, `failed` those that ended a
-- worker. Of the other workers some are free, and some have left their loop.
pub record Pool : Type 0 where
  pub pending : List Group
  pub jobs : List Group
  pub busy : List Group
  pub failed : List Group
  pub processed : List Group
  pub free : ℕ
  pub left : ℕ
  pub store : Session
  pub err_ch : Option Error
  pub cancelled : Bool
  pub phase : Phase

abbrev pub start : Session → List Group → Pool
start s groups = record {
  pending = groups;
  jobs = [];
  busy = [];
  failed = [];
  processed = [];
  free = workers;
  left = 0;
  store = s;
  err_ch = none;
  cancelled = false;
  phase = sending;
}

-- context.Canceled.
abbrev pub canceled : Error
canceled = message "context canceled"

-- What is returned once the workers are done.
unfoldable pub result : Ending → Option Error → Option Error
result (by_error e) ch = some e
result by_cancel none = some canceled
result by_cancel (some e) = some e
result by_end ch = ch

-- `select { case errCh <- err: default: }`.
abbrev pub offer : Error → Option Error → Option Error
offer e none = some e
offer e (some first) = some first

pub data Step (save : Saving) : Pool → Pool → Type 0 where
  send :
      (p : Pool) (g : Group) (rest : List Group)
      → p.phase ≡ sending
      → p.pending ≡ g ∷ rest
      → length p.jobs < workers
      → Step save p (record p { pending = rest; jobs = p.jobs ++ g ∷ [] })
  cancel : (p : Pool) → p.cancelled ≡ false → Step save p (record p { cancelled = true })
  stop_by_error :
      (p : Pool) (g : Group) (rest : List Group) (e : Error)
      → p.phase ≡ sending
      → p.pending ≡ g ∷ rest
      → p.err_ch ≡ some e
      → Step save p (record p { err_ch = none; cancelled = true; phase = waiting (by_error e) })
  stop_by_cancel :
      (p : Pool) (g : Group) (rest : List Group)
      → p.phase ≡ sending
      → p.pending ≡ g ∷ rest
      → p.cancelled ≡ true
      → Step save p (record p { phase = waiting by_cancel })
  sent_all :
      (p : Pool)
      → p.phase ≡ sending
      → p.pending ≡ []
      → Step save p (record p { phase = waiting by_end })
  take :
      (p : Pool) (k : ℕ) (g : Group) (rest : List Group)
      → p.free ≡ suc k
      → p.jobs ≡ g ∷ rest
      → Step save p (record p { free = k; jobs = rest; busy = g ∷ p.busy })
  leave :
      (p : Pool) (k : ℕ) (end : Ending)
      → p.free ≡ suc k
      → p.jobs ≡ []
      → p.phase ≡ waiting end
      → Step save p (record p { free = k; left = suc p.left })
  saved :
      (p : Pool) (before after : List Group) (g : Group) (s : Session)
      → p.busy ≡ before ++ g ∷ after
      → save g p.store ≡ (ok tt, s)
      → Step save p (record p {
        free = suc p.free;
        busy = before ++ after;
        processed = g ∷ p.processed;
        store = s;
      })
  failing :
      (p : Pool) (before after : List Group) (g : Group) (e : Error) (s : Session)
      → p.busy ≡ before ++ g ∷ after
      → save g p.store ≡ (err e, s)
      → Step save p (record p {
        busy = before ++ after;
        failed = g ∷ p.failed;
        store = s;
        err_ch = offer e p.err_ch;
        cancelled = true;
      })
  return :
      (p : Pool) (end : Ending)
      → p.phase ≡ waiting end
      → p.free ≡ 0
      → p.busy ≡ []
      → Step save p (record p { phase = returned (result end p.err_ch) })

-- What is reached in a number of steps.
pub data Reach (save : Saving) (s : Pool) : ℕ → Pool → Type 0 where
  here : Reach save s 0 s
  next : {n : ℕ} {p q : Pool} → Reach save s n p → Step save p q → Reach save s (suc n) q
