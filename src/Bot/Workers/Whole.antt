-- ===== src/Bot/Workers/Whole.antt =====
-- The pool of workers keeps every group in one place.
use uban_z.Prelude.{ℕ, ◌+◌, Bool, List, [], ◌∷◌, ◌++◌, if◌then◌else◌, ◌≡◌, ap, arith}
use uban_z.Bot.Session.{Session}
use uban_z.Bot.Source.{Group}
use uban_z.Bot.Workers.{
  Saving, Pool, start, Step, send, cancel, stop_by_error, stop_by_cancel, sent_all, take, leave,
  saved, failing, return, Reach, here, next,
}

-- How many groups pass a test.
abbrev pub count : (Group → Bool) → List Group → ℕ
count q [] = 0
count q (g ∷ gs) = (if q g then 1 else 0) + count q gs

count-append :
    (q : Group → Bool) (xs ys : List Group) → count q (xs ++ ys) ≡ count q xs + count q ys
count-append q [] ys = omega arith
count-append q (x ∷ xs) ys = omega (arith, count-append q xs ys)

-- Every group is in one place.
pub record IsWhole (groups : List Group) (p : Pool) : Type 0 where
  pub kept :
      (q : Group → Bool)
      → count q p.pending
          + (count q p.jobs + (count q p.busy + (count q p.failed + count q p.processed)))
        ≡ count q groups

Step-IsWhole :
    {save : Saving} {groups : List Group} {p p' : Pool}
    → Step save p p'
    → IsWhole groups p
    → IsWhole groups p'
Step-IsWhole (send p g rest ph pe lt) w = record {
  kept = λ q. omega (arith, w.kept q, ap (count q) pe, count-append q p.jobs (g ∷ []));
}
Step-IsWhole (cancel p c) w = record { kept = w.kept }
Step-IsWhole (stop_by_error p g rest e ph pe ch) w = record { kept = w.kept }
Step-IsWhole (stop_by_cancel p g rest ph pe c) w = record { kept = w.kept }
Step-IsWhole (sent_all p ph pe) w = record { kept = w.kept }
Step-IsWhole (take p k g rest f j) w = record {
  kept = λ q. omega (arith, w.kept q, ap (count q) j);
}
Step-IsWhole (leave p k end f j ph) w = record { kept = w.kept }
Step-IsWhole (saved p before after g s b sv) w = record {
  kept = λ q. omega (
    arith,
    w.kept q,
    ap (count q) b,
    count-append q before (g ∷ after),
    count-append q before after,
  );
}
Step-IsWhole (failing p before after g e s b sv) w = record {
  kept = λ q. omega (
    arith,
    w.kept q,
    ap (count q) b,
    count-append q before (g ∷ after),
    count-append q before after,
  );
}
Step-IsWhole (return p end ph f b) w = record { kept = w.kept }

start-IsWhole : (s : Session) (groups : List Group) → IsWhole groups (start s groups)
start-IsWhole s groups = record { kept = λ q. omega arith }

pub Reach-IsWhole :
    {save : Saving} {s : Session} {groups : List Group} {n : ℕ} {p : Pool}
    → Reach save (start s groups) n p
    → IsWhole groups p
Reach-IsWhole {s} {groups} here = start-IsWhole s groups
Reach-IsWhole (next r st) = Step-IsWhole st (Reach-IsWhole r)
