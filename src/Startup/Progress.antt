-- ===== src/Startup/Progress.antt =====
-- How the import at the start of the booking process ends.
use uban_z.Prelude.{
  Bool, true, false, List, [], ◌∷◌, Option, none, some, ◌≡◌, ◌≢◌, ◌⊎◌, refl, sym, ap, ◌∙◌, subst,
  arith, inl, inr, Result, ok, err, M,
}
use uban_z.Clock.{Time}
use uban_z.Booking.Domain.{Error, canceled, errors_is}
use uban_z.Parser.Domain.{ImportStats}
use uban_z.Startup.{
  ImportStatusTracker, Attempt, Progress, concluded, mark_running, mark_failed, mark_ready,
  mark_skipped, with_schedule_import_lock, check_and_import, start_startup_schedule_import,
}

module _ {S : Type 0} (run : M S Error (Unit {0})) where
  -- The function under the lock runs at most once, and not at all without the lock.
  pub with_schedule_import_lock-once :
      (attempts : List Attempt) (s : S)
      → ((with_schedule_import_lock attempts run s).1 ≡ s)
        ⊎ ((with_schedule_import_lock attempts run s).1 ≡ (run s).1)
  unfolding with_schedule_import_lock
  with_schedule_import_lock-once [] s = inl refl
  with_schedule_import_lock-once (a ∷ attempts) s =
      ground (arith, with_schedule_import_lock-once attempts s)

with_schedule_import_lock-ok :
    {S : Type 0} (run : M S Error (Unit {0})) (attempts : List Attempt) (s : S) (u : Unit {0})
    → (with_schedule_import_lock attempts run s).0 ≡ some (ok u)
    → (with_schedule_import_lock attempts run s).1 ≡ (run s).1
unfolding with_schedule_import_lock
with_schedule_import_lock-ok run [] s u h = absurd (cc h)
with_schedule_import_lock-ok run (a ∷ attempts) s u h =
    ground (arith, with_schedule_import_lock-ok run attempts s u)

-- An import that has ended.
abbrev pub IsSettled : ImportStatusTracker → Type 0
IsSettled t = ((t.status ≡ "ready") ⊎ (t.status ≡ "failed")) × (t.completed_at ≢ none)

module _ {S : Type 0} (now : S → Time) (has_parsed_schedule : M S Error Bool)
    (import_schedule : M S Error ImportStats) where
  check_and_import-IsSettled :
      (p : Progress S) → IsSettled (check_and_import now has_parsed_schedule import_schedule p).1.1
  unfolding check_and_import mark_failed mark_skipped mark_ready
  check_and_import-IsSettled p = ground arith

  concluded-IsSettled :
      (l : Option (Result Error (Unit {0})) × Progress S) (r : Result Error (Unit {0}))
      → l.0 ≡ some r
      → ((u : Unit {0}) → r ≡ ok u → IsSettled l.1.1)
      → ((e : Error) → r ≡ err e → errors_is e canceled ≡ false)
      → IsSettled (concluded now has_parsed_schedule import_schedule l).1
  unfolding mark_failed
  concluded-IsSettled (none, q) r h settled alive = absurd (cc h)
  concluded-IsSettled (some (ok u), q) r h settled alive = settled u (ground arith)
  concluded-IsSettled (some (err e), q) r h settled alive = ground (arith, alive e)

  concluded_outside :
      (l : Option (Result Error (Unit {0})) × Progress S)
      → (concluded now has_parsed_schedule import_schedule l).0 ≡ l.1.0
  concluded_outside (none, q) = refl
  concluded_outside (some (ok u), q) = refl
  concluded_outside (some (err e), q) = ground arith

  -- When waiting for the lock came to a result, and that result is not an error of a cancelled
  -- context, the status of the import is `ready` or `failed` and has a time of completion.
  pub start_startup_schedule_import-IsSettled :
      (attempts : List Attempt) (p : Progress S) (r : Result Error (Unit {0}))
      → (with_schedule_import_lock attempts
          (check_and_import now has_parsed_schedule import_schedule)
          (p.0, mark_running (now p.0) p.1)).0
        ≡ some r
      → ((e : Error) → r ≡ err e → errors_is e canceled ≡ false)
      → IsSettled
          (start_startup_schedule_import now has_parsed_schedule import_schedule attempts p).1
  unfolding start_startup_schedule_import
  start_startup_schedule_import-IsSettled attempts p r h alive =
      let run : M (Progress S) Error (Unit {0}) =
        check_and_import now has_parsed_schedule import_schedule in
      let begun : Progress S = (p.0, mark_running (now p.0) p.1) in
      concluded-IsSettled (with_schedule_import_lock attempts run begun) r h
        (λ u e.
          subst (λ q. IsSettled q.1)
            (sym (with_schedule_import_lock-ok run attempts begun u (h ∙ ap some e)))
            (check_and_import-IsSettled begun))
        alive

  -- A schedule that is there already is not imported again.
  pub start_startup_schedule_import-skips :
      (attempts : List Attempt) (p : Progress S)
      → has_parsed_schedule p.0 ≡ (ok true, p.0)
      → (start_startup_schedule_import now has_parsed_schedule import_schedule attempts p).0 ≡ p.0
  unfolding start_startup_schedule_import check_and_import
  start_startup_schedule_import-skips attempts p h =
      let run : M (Progress S) Error (Unit {0}) =
        check_and_import now has_parsed_schedule import_schedule in
      let begun : Progress S = (p.0, mark_running (now p.0) p.1) in
      concluded_outside (with_schedule_import_lock attempts run begun)
      ∙ elim (with_schedule_import_lock-once run attempts begun) [
        | inl e ↦ ap (λ q. q.0) e
        | inr e ↦ ap (λ q. q.0) e ∙ ground (arith, h)
      ]
