-- ===== src/Bot/Workers/Progress.antt =====
-- The import ends, and without an error it has lost no group.
use uban_z.Prelude.{
  ℕ, suc, ok, ◌+◌, ◌*◌, Bool, true, false, List, [], ◌∷◌, length, none, ◌≡◌, refl, sym, ap, subst,
  inl, inr, ◌⊎◌, arith,
}
use uban_z.Bot.Session.{Session}
use uban_z.Bot.Source.{Group}
use uban_z.Bot.Workers.{save_in_turn, Phase, sending, waiting, returned, Saving, Pool, start, Reach}
use uban_z.Bot.Workers.Whole.{count, Reach-IsWhole}
use uban_z.Bot.Workers.Replay.{Reach-IsReplay}
use uban_z.Bot.Workers.Order.{SentAll, IsOrderly, Reach-IsOrderly}

-- What is left to do, with weights that every step lowers.
unfoldable phase_work : Phase → ℕ
phase_work sending = 2
phase_work (waiting end) = 1
phase_work (returned r) = 0

-- A context that has not ended may still end.
unfoldable cancel_work : Bool → ℕ
cancel_work true = 0
cancel_work false = 1

unfoldable work : Pool → ℕ
unfolding phase_work cancel_work
work p =
    3 * length p.pending
    + 2 * length p.jobs
    + 2 * length p.busy
    + p.free
    + phase_work p.phase
    + cancel_work p.cancelled

list-cases : {A : Type 0} (xs : List A) → (xs ≡ []) ⊎ ((x : A) × (rest : List A) × (xs ≡ x ∷ rest))
list-cases [] = inl refl
list-cases (x ∷ xs) = inr (x, xs, refl)

-- Some worker is not through, or all have failed.
data Teamwork (p : Pool) : Type 0 where
  at_work : (g : Group) (rest : List Group) → p.busy ≡ g ∷ rest → Teamwork p
  unoccupied : (k : ℕ) → p.free ≡ suc k → Teamwork p
  gone : p.free ≡ 0 → p.busy ≡ [] → Teamwork p

unfailed : (p : Pool) → IsOrderly p → p.phase ≡ returned none → p.failed ≡ []
unfailed p o done = elim (list-cases p.failed) [
  | inl e ↦ e
  | inr (g, rest, e) ↦ absurd (o.reported (omega (arith, ap (length {A = Group}) e)) done)
]

-- The workers that have not failed have left, behind the last group.
untaken : (p : Pool) → IsOrderly p → p.phase ≡ returned none → p.failed ≡ [] → p.jobs ≡ []
untaken p o done spared =
    let idle = o.done none done in
    (o.drained (
      omega
        (arith, o.team, idle.0, ap (length {A = Group}) idle.1, ap (length {A = Group}) spared))).0

-- Whatever saving a group does, when the workers take their steps and whenever the context ends:
-- when the import of a list of groups returns without an error, the processed groups are the given
-- ones, each as often as it is given, and the session is what saving the processed groups one
-- after the other makes of it, each of them without an error.
pub start_processed :
    (save : Saving) (s : Session) (groups : List Group) (n : ℕ) (p : Pool)
    → Reach save (start s groups) n p
    → p.phase ≡ returned none
    → ((q : Group → Bool) → count q p.processed ≡ count q groups)
      × (save_in_turn save p.processed s ≡ (ok tt, p.store))
start_processed save s groups n p run done =
    let o = Reach-IsOrderly run in
    let idle = (o.done none done).1 in
    let spared = unfailed p o done in
    (
      λ q. omega (
        arith,
        (Reach-IsWhole run).kept q,
        ap (count q) (o.sent (subst SentAll (sym done) tt)),
        ap (count q) idle,
        ap (count q) spared,
        ap (count q) (untaken p o done spared),
      ),
      (Reach-IsReplay run).replayed spared,
    )
