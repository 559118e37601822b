-- ===== src/Parser/Service/Runs.antt =====
-- A whole run of the import, over any source and repository.
use uban_z.Prelude.{
  ◌+◌, String, List, [], ◌∷◌, map, length, length-append, ◌≡◌, refl, arith, ok, inl, inr,
  Result-cases, Option-cases,
}
use uban_z.Clock.{Time}
use uban_z.Parser.Domain.{RoomSelector, LessonRoom, ScheduleSlot, ImportStats, Ports}
use uban_z.Parser.Service.{
  Config, Collected, nothing, normalized, expand, collect_lessons, collect_rooms, run,
  collect_slots,
}

module _ {S : Type 0} (to_lower : String → String) (now : S → Time × S) (p : Ports S)
    (cfg : Config) where
  abbrev Counted : Collected → Type 0
  Counted c = c.lessons_expanded ≡ length c.slots

  collect_lessons-Counted :
      (room : RoomSelector) (lessons : List LessonRoom) (acc : Collected) (s : S) (c : Collected)
      → Counted acc
      → (collect_lessons to_lower now p cfg room lessons acc s).0 ≡ ok c
      → Counted c × (c.lessons_seen ≡ acc.lessons_seen)
  unfolding collect_lessons
  collect_lessons-Counted room [] acc s c h e = ground arith
  collect_lessons-Counted room (lesson ∷ lessons) acc s c h e =
      elim (Option-cases (p.ctx_err s).0) [
        | inr (x, k) ↦ absurd (ground arith)
        | inl k ↦ elim (Result-cases (expand to_lower now p cfg room lesson (p.ctx_err s).1).0) [
          | inr (x, f) ↦ absurd (ground arith)
          | inl (expanded, f) ↦
              collect_lessons-Counted room lessons (collect_slots acc expanded)
                (expand to_lower now p cfg room lesson (p.ctx_err s).1).1 c
                (omega (arith, length-append acc.slots expanded)) (ground arith)
        ]
      ]

  collect_rooms-Counted :
      (rooms : List RoomSelector) (acc : Collected) (s : S) (c : Collected)
      → Counted acc
      → (collect_rooms to_lower now p cfg rooms acc s).0 ≡ ok c
      → Counted c
  unfolding collect_rooms
  collect_rooms-Counted [] acc s c h e = ground arith
  collect_rooms-Counted (room ∷ rooms) acc s c h e = elim (Option-cases (p.ctx_err s).0) [
    | inr (x, k) ↦ absurd (ground arith)
    | inl k ↦ elim (Result-cases (p.parse_lessons_room room.full_url (p.ctx_err s).1).0) [
      | inr (x, f) ↦ absurd (ground arith)
      | inl (lessons, f) ↦
          let acc1 : Collected = record acc { lessons_seen = acc.lessons_seen + length lessons } in
          let s1 : S = (p.parse_lessons_room room.full_url (p.ctx_err s).1).1 in
          elim (Result-cases (collect_lessons to_lower now p cfg room lessons acc1 s1).0) [
            | inr (x, g) ↦ absurd (ground arith)
            | inl (acc2, g) ↦
                collect_rooms-Counted rooms acc2
                  (collect_lessons to_lower now p cfg room lessons acc1 s1).1 c
                  (collect_lessons-Counted room lessons acc1 s1 acc2 h g).0 (ground arith)
          ]
    ]
  ]

-- A run that succeeded: what the source gave, what the repository was handed, and what it answered.
pub record IsRun {S : Type 0} (p : Ports S) (cfg : Config) (stats : ImportStats) : Type 0 where
  pub rooms : List RoomSelector
  pub slots : List ScheduleSlot
  pub before_rooms : S
  pub before_replace : S
  pub stored : ImportStats
  pub given : (p.parse_rooms before_rooms).0 ≡ ok rooms
  pub replaced :
      (p.replace_parsed_schedule (map (normalized cfg) rooms) slots before_replace).0 ≡ ok stored
  pub rooms_seen : stats.rooms_seen ≡ length rooms
  pub lessons_expanded : stats.lessons_expanded ≡ length slots
  pub lessons_imported : stats.lessons_imported ≡ stored.lessons_imported
  pub lessons_skipped : stats.lessons_skipped ≡ stored.lessons_skipped

-- A run of the import that succeeds asked the source for rooms and handed the repository those
-- rooms, normalized, with slots; its statistics count these rooms and slots, and its counts of
-- imported and skipped lessons are the repository's.
pub run-IsRun :
    {S : Type 0} (to_lower : String → String) (now : S → Time × S) (p : Ports S) (cfg : Config)
    (s s' : S) (stats : ImportStats)
    → run to_lower now p cfg s ≡ (ok stats, s')
    → IsRun p cfg stats
unfolding run
run-IsRun {S} to_lower now p cfg s s' stats e = elim (Option-cases (p.ctx_err s).0) [
  | inr (x, k) ↦ absurd (ground arith)
  | inl k ↦ elim (Result-cases (p.parse_rooms (p.ctx_err s).1).0) [
    | inr (x, f) ↦ absurd (ground arith)
    | inl (rooms, f) ↦
        let s1 : S = (p.parse_rooms (p.ctx_err s).1).1 in
        elim (Result-cases (collect_rooms to_lower now p cfg rooms nothing s1).0) [
          | inr (x, g) ↦ absurd (ground arith)
          | inl (c, g) ↦
              let s2 : S = (collect_rooms to_lower now p cfg rooms nothing s1).1 in
              elim (Option-cases (p.ctx_err s2).0) [
                | inr (x, m) ↦ absurd (ground arith)
                | inl m ↦
                    let s3 : S = (p.ctx_err s2).1 in
                    elim (Result-cases
                      (p.replace_parsed_schedule (map (normalized cfg) rooms) c.slots s3).0) [
                        | inr (x, n) ↦ absurd (ground arith)
                        | inl (stored, n) ↦ record {
                          rooms = rooms;
                          slots = c.slots;
                          before_rooms = (p.ctx_err s).1;
                          before_replace = s3;
                          stored = stored;
                          given = f;
                          replaced = n;
                          rooms_seen = ground arith;
                          lessons_expanded = ground (
                            arith,
                            collect_rooms-Counted to_lower now p cfg rooms nothing s1 c refl g,
                          );
                          lessons_imported = ground arith;
                          lessons_skipped = ground arith;
                        }
                      ]
              ]
        ]
  ]
]
