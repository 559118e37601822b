-- ===== src/Startup.antt =====
-- The import at the start of the booking process: `startStartupScheduleImport` and its status
-- tracker in cmd/booking/main.go, and internal/adapter/booking/postgres/import_lock.go. The mutex
-- of the tracker makes each of its methods one step. Log lines are not modelled.
pub mod Progress
use uban_z.Prelude.{
  String, Bool, true, false, not, ◌&&◌, List, [], ◌∷◌, Option, none, some, ◌==◌, Result, ok, err, M,
  if◌then◌else◌,
}
use uban_z.Clock.{Time, zero_time, is_zero}
use uban_z.Booking.Domain.{Error, canceled, wrap, errors_is, message}
use uban_z.Parser.Domain.{ImportStats, no_stats}

pub record ImportStatusTracker : Type 0 where
  pub status : String
  pub error : String
  pub stats : ImportStats
  pub started_at : Time
  pub completed_at : Option Time
  pub skipped : Bool
  pub reason : String

unfoldable pub new_import_status_tracker : ImportStatusTracker
new_import_status_tracker = record {
  status = "pending";
  error = "";
  stats = no_stats;
  started_at = zero_time;
  completed_at = none;
  skipped = false;
  reason = "";
}

unfoldable pub mark_running : Time → ImportStatusTracker → ImportStatusTracker
mark_running now t = record {
  status = "running";
  error = "";
  stats = no_stats;
  started_at = now;
  completed_at = none;
  skipped = false;
  reason = "";
}

unfoldable pub mark_ready : ImportStats → Time → ImportStatusTracker → ImportStatusTracker
mark_ready stats now t = record t {
  status = "ready";
  error = "";
  stats = stats;
  completed_at = some now;
  skipped = false;
  reason = "";
}

unfoldable pub mark_skipped : String → Time → ImportStatusTracker → ImportStatusTracker
mark_skipped reason now t = record t {
  status = "ready";
  error = "";
  stats = no_stats;
  completed_at = some now;
  skipped = true;
  reason = reason;
}

unfoldable pub mark_failed : Error → Time → ImportStatusTracker → ImportStatusTracker
unfolding message
mark_failed e now t = record t {
  status = "failed";
  error = message e;
  completed_at = some now;
  skipped = false;
  reason = "";
}

pub record ImportStatusResponse : Type 0 where
  pub status : String
  pub error : String
  pub stats : Option ImportStats
  pub started_at : String
  pub completed_at : String
  pub skipped : Bool
  pub reason : String

module _ (format_rfc3339 : Time → String) where
  abbrev format_optional_time : Time → String
  format_optional_time value = if is_zero value then "" else format_rfc3339 value

  unfoldable pub serve_http : ImportStatusTracker → ImportStatusResponse
  serve_http t = record {
    status = t.status;
    error = t.error;
    stats = if t.status == "ready" then some t.stats else none;
    started_at = format_optional_time t.started_at;
    completed_at = elim t.completed_at [ none ↦ "" | some at ↦ format_rfc3339 at ];
    skipped = t.skipped;
    reason = t.reason;
  }

-- One attempt at the lock: what the database answers, what a commit meets, and the error of the
-- context if it is done before the next attempt.
pub record Attempt : Type 0 where
  pub answer : Result Error Bool
  pub commit : Option Error
  pub ctx_err : Option Error

abbrev committed :
    {S : Type 0} → Option Error → Result Error (Unit {0}) × S → Result Error (Unit {0}) × S
committed none (ok u, s) = (ok u, s)
committed (some e) (ok u, s) = (err e, s)
committed c (err e, s) = (err e, s)

-- `none` means that the process still waits for the lock when the attempts are over.
unfoldable pub with_schedule_import_lock :
    {S : Type 0} → List Attempt → M S Error (Unit {0}) → S → Option (Result Error (Unit {0})) × S
with_schedule_import_lock [] run s = (none, s)
with_schedule_import_lock (a ∷ attempts) run s =
    let later = with_schedule_import_lock attempts run s in
    elim a.answer [
      | err e ↦ (some (err (wrap "lock schedule import" e)), s)
      | ok acquired ↦
          if acquired
          then (let r = committed a.commit (run s) in (some r.0, r.1))
          else elim a.commit [
            | some e ↦ (some (err e), s)
            | none ↦ elim a.ctx_err [ some e ↦ (some (err e), s) | none ↦ later ]
          ]
    ]

-- What the goroutine acts on: the outside, and the tracker.
abbrev pub Progress : Type 0 → Type 0
Progress S = S × ImportStatusTracker

module _ {S : Type 0} (now : S → Time) (has_parsed_schedule : M S Error Bool)
    (import_schedule : M S Error ImportStats) where
  abbrev imported :
      Result Error ImportStats → S → ImportStatusTracker → Result Error (Unit {0}) × Progress S
  imported (err e) s t = (err e, (s, mark_failed e (now s) t))
  imported (ok stats) s t = (ok tt, (s, mark_ready stats (now s) t))

  abbrev checked :
      Result Error Bool → S → ImportStatusTracker → Result Error (Unit {0}) × Progress S
  checked (err e) s t = (err e, (s, mark_failed e (now s) t))
  checked (ok true) s t =
      (ok tt, (s, mark_skipped "parsed schedule already exists in database" (now s) t))
  checked (ok false) s t = imported (import_schedule s).0 (import_schedule s).1 t

  -- The function that runs under the lock.
  unfoldable pub check_and_import : M (Progress S) Error (Unit {0})
  unfolding mark_failed mark_skipped mark_ready
  check_and_import p = checked (has_parsed_schedule p.0).0 (has_parsed_schedule p.0).1 p.1

  abbrev pub concluded : Option (Result Error (Unit {0})) × Progress S → Progress S
  concluded (none, p) = p
  concluded (some (ok u), p) = p
  concluded (some (err e), p) =
      if errors_is e canceled then p else (p.0, mark_failed e (now p.0) p.1)

  unfoldable pub start_startup_schedule_import : List Attempt → Progress S → Progress S
  unfolding mark_running with_schedule_import_lock check_and_import
  start_startup_schedule_import attempts p =
      concluded
        (with_schedule_import_lock attempts check_and_import (p.0, mark_running (now p.0) p.1))
