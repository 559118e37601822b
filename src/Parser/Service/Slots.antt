-- ===== src/Parser/Service/Slots.antt =====
-- The slots that `expand` makes of one lesson.
use uban_z.Prelude.{
  subst, ok, Option-cases, Result-cases, ℕ, zero, suc, ◌+◌, ◌-◌, ◌*◌, ◌/◌, ◌%◌, ◌≤◌, ◌<◌, ◌≡◌, ◌∙◌,
  sym, refl, ap, true, String, List, [], ◌∷◌, length, All, All-mono, some, arith, Bool-cases, inl,
  inr,
}
use mathlib.Core.List.{Memᴰ}
use native.Mathlib.Decide.{dec_lt}
use uban_z.Clock.{Time}
use uban_z.Parser.Domain.{RoomSelector, LessonRoom, ScheduleSlot, Ports}
use uban_z.Parser.Times.ClockText.{parse_clock_bounds}
use uban_z.Parser.Times.{
  parse_clock, parse_weekday, matches_week, weekday_of, week_start, weekday_offset,
}
use uban_z.Parser.Times.Weeks.{IsRegular, day-week_start, weekday_offset_lem}
use uban_z.Parser.Service.{Config, rounds_of, expand, slot_on, lesson_day, expand_weeks}

module _ (to_lower : String → String) (cfg : Config) (room : RoomSelector)
    (lesson : LessonRoom) where
  -- The slot stands for one of the weeks from `from` up to `to`, which the lesson's week admits.
  pub record IsSlotOf (monday : Time) (weekday : ℕ) (clock : ℕ × ℕ) (from to : ℕ)
      (slot : ScheduleSlot) : Type 0 where
    pub week : ℕ
    pub from_le : from ≤ week
    pub lt_to : week < to
    pub admitted : matches_week to_lower lesson.week (lesson_day cfg monday weekday week) ≡ true
    pub same : slot ≡ slot_on cfg room lesson clock (lesson_day cfg monday weekday week)

  IsSlotOf-mono :
      (monday : Time) (weekday : ℕ) (clock : ℕ × ℕ) (from to from' to' : ℕ) (slot : ScheduleSlot)
      → from' ≤ from
      → to ≤ to'
      → IsSlotOf monday weekday clock from to slot
      → IsSlotOf monday weekday clock from' to' slot
  IsSlotOf-mono monday weekday clock from to from' to' slot h k s = record {
    week = s.week;
    from_le = omega arith;
    lt_to = omega arith;
    admitted = s.admitted;
    same = s.same;
  }

  pub expand_weeks-IsSlotOf :
      (monday : Time) (weekday : ℕ) (clock : ℕ × ℕ) (rounds week : ℕ)
      → All
          (IsSlotOf monday weekday clock week (week + rounds))
          (expand_weeks to_lower cfg room lesson monday weekday clock rounds week)
  unfolding expand_weeks
  expand_weeks-IsSlotOf monday weekday clock zero week = tt
  expand_weeks-IsSlotOf monday weekday clock (suc rounds) week =
      let rest =
        All-mono
          (λ slot s.
            IsSlotOf-mono monday weekday clock (suc week) (suc week + rounds) week
              (week + suc rounds) slot (omega arith) (omega arith) s)
          (expand_weeks to_lower cfg room lesson monday weekday clock rounds (suc week))
          (expand_weeks-IsSlotOf monday weekday clock rounds (suc week)) in
      elim (Bool-cases (matches_week to_lower lesson.week (lesson_day cfg monday weekday week))) [
        | inl e ↦ rw e (
          record {
            week = week;
            from_le = omega arith;
            lt_to = omega arith;
            admitted = e;
            same = refl;
          },
          rest,
        )
        | inr e ↦ rw e rest
      ]

  -- Every week of the loop's range whose day the lesson's week admits has the slot of that day in
  -- the expansion.
  pub mem-expand_weeks :
      (monday : Time) (weekday : ℕ) (clock : ℕ × ℕ) (rounds week w : ℕ)
      → week ≤ w
      → w < week + rounds
      → matches_week to_lower lesson.week (lesson_day cfg monday weekday w) ≡ true
      → Memᴰ
          (slot_on cfg room lesson clock (lesson_day cfg monday weekday w))
          (expand_weeks to_lower cfg room lesson monday weekday clock rounds week)
  unfolding expand_weeks
  mem-expand_weeks monday weekday clock zero week w h k e = absurd (omega arith)
  mem-expand_weeks monday weekday clock (suc rounds) week w h k e = elim (dec_lt week w) [
    | yes lt ↦
        let there = mem-expand_weeks monday weekday clock rounds (suc week) w lt (omega arith) e in
        elim (Bool-cases (matches_week to_lower lesson.week (lesson_day cfg monday weekday week))) [
          | inl f ↦ rw f (Memᴰ.tail there)
          | inr f ↦ rw f there
        ]
    | no ge ↦ let same : week ≡ w = omega arith in rw same (rw e (Memᴰ.head refl))
  ]

  pub length-expand_weeks-le :
      (monday : Time) (weekday : ℕ) (clock : ℕ × ℕ) (rounds week : ℕ)
      → length (expand_weeks to_lower cfg room lesson monday weekday clock rounds week) ≤ rounds
  unfolding expand_weeks
  length-expand_weeks-le monday weekday clock zero week = omega arith
  length-expand_weeks-le monday weekday clock (suc rounds) week =
      ground (arith, length-expand_weeks-le monday weekday clock rounds (suc week))

-- Each slot lies on a later day than those in front of it.
abbrev pub Increasing : Config → List ScheduleSlot → Type 0
Increasing cfg [] = Unit
Increasing cfg (s ∷ slots) =
    All (λ t. cfg.location.day s.start_time < cfg.location.day t.start_time) slots
    × Increasing cfg slots

-- The days on which a lesson is to take place: in one of the weeks from the present one on, on its
-- weekday, and admitted by its week.
pub record IsLessonDay (to_lower : String → String) (cfg : Config) (lesson : LessonRoom)
    (now : Time) (weekday rounds day : ℕ) : Type 0 where
  pub from_monday : cfg.location.day now - cfg.location.day now % 7 ≤ day
  pub in_weeks : day < cfg.location.day now - cfg.location.day now % 7 + 7 * rounds
  pub on_weekday : weekday_of day ≡ weekday
  pub admitted : matches_week to_lower lesson.week day ≡ true

-- What a slot owes to the lesson that it was made of.
pub record IsDated (to_lower : String → String) (cfg : Config) (lesson : LessonRoom) (now : Time)
    (weekday : ℕ) (clock : ℕ × ℕ) (rounds : ℕ) (slot : ScheduleSlot) : Type 0 where
  pub duration : slot.end_time ≡ slot.start_time + 95 * 60_000_000_000
  pub clock_kept :
      cfg.location.clock slot.start_time ≡ clock.0 * 3_600_000_000_000 + clock.1 * 60_000_000_000
  pub day_kept :
      IsLessonDay to_lower cfg lesson now weekday rounds (cfg.location.day slot.start_time)

weekday_offset_le : (weekday : ℕ) → weekday < 7 → weekday_offset weekday ≤ 6
unfolding weekday_offset
weekday_offset_le weekday h = ground arith

weekday_offset-weekday_of : (day : ℕ) → weekday_offset (weekday_of day) ≡ day % 7
unfolding weekday_offset
weekday_offset-weekday_of day = ground arith

module _ (to_lower : String → String) (cfg : Config) (r : IsRegular cfg.location)
    (room : RoomSelector) (lesson : LessonRoom) (now : Time) (weekday : ℕ) (clock : ℕ × ℕ)
    (rounds : ℕ) (is_weekday : weekday < 7) (is_hour : clock.0 < 24)
    (is_minute : clock.1 < 60) where
  abbrev monday_of_now : Time
  monday_of_now = week_start cfg.location now

  lesson_day_lem :
      (week : ℕ)
      → lesson_day cfg monday_of_now weekday week
        ≡ cfg.location.day now - cfg.location.day now % 7 + (week * 7 + weekday_offset weekday)
  lesson_day_lem week =
      r.day_date _ _ (r.clock_lt monday_of_now)
      ∙ ap (λ n. n + (week * 7 + weekday_offset weekday)) (day-week_start cfg.location r now)

  slot_on-day : (day : ℕ) → cfg.location.day (slot_on cfg room lesson clock day).start_time ≡ day
  slot_on-day day = r.day_date _ _ (omega arith)

  lesson_day-IsLessonDay :
      (week : ℕ)
      → week < rounds
      → matches_week to_lower lesson.week (lesson_day cfg monday_of_now weekday week) ≡ true
      → IsLessonDay to_lower cfg lesson now weekday rounds
          (lesson_day cfg monday_of_now weekday week)
  lesson_day-IsLessonDay week h m =
      let day = lesson_day_lem week in
      record {
        from_monday = omega (arith, day);
        in_weeks = omega (arith, day, weekday_offset_le weekday is_weekday);
        on_weekday =
            ap weekday_of (day ∙ shift)
            ∙ weekday_offset_lem (cfg.location.day now - cfg.location.day now % 7 + week * 7)
                weekday (omega arith) is_weekday;
        admitted = m;
      }
    where
      shift :
          cfg.location.day now - cfg.location.day now % 7 + (week * 7 + weekday_offset weekday)
          ≡ cfg.location.day now - cfg.location.day now % 7 + week * 7 + weekday_offset weekday
      shift = omega arith

  slot_day :
      (from to : ℕ) (slot : ScheduleSlot)
      → (s : IsSlotOf to_lower cfg room lesson monday_of_now weekday clock from to slot)
      → cfg.location.day slot.start_time ≡ lesson_day cfg monday_of_now weekday s.week
  slot_day from to slot s =
      ap (λ (t : ScheduleSlot). cfg.location.day t.start_time) s.same
      ∙ slot_on-day (lesson_day cfg monday_of_now weekday s.week)

  later :
      (week to : ℕ) (slot : ScheduleSlot)
      → IsSlotOf to_lower cfg room lesson monday_of_now weekday clock (suc week) to slot
      → cfg.location.day
          (slot_on cfg room lesson clock (lesson_day cfg monday_of_now weekday week)).start_time
        < cfg.location.day slot.start_time
  later week to slot s = omega (
    arith,
    slot_on-day (lesson_day cfg monday_of_now weekday week),
    slot_day (suc week) to slot s,
    lesson_day_lem week,
    lesson_day_lem s.week,
    s.from_le,
  )

  expand_weeks-Increasing :
      (n week : ℕ)
      → Increasing cfg (expand_weeks to_lower cfg room lesson monday_of_now weekday clock n week)
  unfolding expand_weeks
  expand_weeks-Increasing zero week = tt
  expand_weeks-Increasing (suc n) week =
      elim (Bool-cases
        (matches_week to_lower lesson.week (lesson_day cfg monday_of_now weekday week))) [
          | inl e ↦ rw e (
            All-mono (λ slot s. later week (suc week + n) slot s)
                (expand_weeks to_lower cfg room lesson monday_of_now weekday clock n (suc week))
                (expand_weeks-IsSlotOf to_lower cfg room lesson monday_of_now weekday clock n
                  (suc week)),
            expand_weeks-Increasing n (suc week),
          )
          | inr e ↦ rw e (expand_weeks-Increasing n (suc week))
        ]

  IsDated-of_IsSlotOf :
      (slot : ScheduleSlot)
      → IsSlotOf to_lower cfg room lesson monday_of_now weekday clock 0 (0 + rounds) slot
      → IsDated to_lower cfg lesson now weekday clock rounds slot
  IsDated-of_IsSlotOf slot s =
      let start = ap (λ (t : ScheduleSlot). t.start_time) s.same in
      record {
        duration =
            ap (λ (t : ScheduleSlot). t.end_time) s.same
            ∙ ap (λ (t : Time). t + 95 * 60_000_000_000) (sym start);
        clock_kept = ap cfg.location.clock start ∙ r.clock_date _ _ (omega arith);
        day_kept =
            subst (IsLessonDay to_lower cfg lesson now weekday rounds)
              (sym (
                ap cfg.location.day start
                ∙ slot_on-day (lesson_day cfg monday_of_now weekday s.week)))
              (lesson_day-IsLessonDay s.week (omega (arith, s.lt_to)) s.admitted);
      }

  -- The week of a lesson day, counted from the present one.
  lesson_day-week :
      (day : ℕ)
      → IsLessonDay to_lower cfg lesson now weekday rounds day
      → (week : ℕ) × (week < rounds) × (lesson_day cfg monday_of_now weekday week ≡ day)
  lesson_day-week day d = (
    day / 7 - cfg.location.day now / 7,
    omega (arith, d.from_monday, d.in_weeks),
    lesson_day_lem (day / 7 - cfg.location.day now / 7)
        ∙ omega
            (arith, d.from_monday, ap weekday_offset d.on_weekday, weekday_offset-weekday_of day),
  )

  mem-expansion :
      (day : ℕ)
      → IsLessonDay to_lower cfg lesson now weekday rounds day
      → Memᴰ
          (slot_on cfg room lesson clock day)
          (expand_weeks to_lower cfg room lesson monday_of_now weekday clock rounds 0)
  mem-expansion day d =
      let w = lesson_day-week day d in
      subst
        (λ n.
          Memᴰ (slot_on cfg room lesson clock n)
            (expand_weeks to_lower cfg room lesson monday_of_now weekday clock rounds 0))
        w.2
        (mem-expand_weeks to_lower cfg room lesson monday_of_now weekday clock rounds 0 w.0
          (omega arith) (omega (arith, w.1))
          (ap (matches_week to_lower lesson.week) w.2 ∙ d.admitted))

parse_weekday-lt :
    (to_lower : String → String) (value : String) (d : ℕ)
    → parse_weekday to_lower value ≡ some d
    → d < 7
unfolding parse_weekday
parse_weekday-lt to_lower value d h = ground arith

-- What an expansion that succeeds has read, and made.
pub record IsExpansion (to_lower : String → String) (cfg : Config) (now : Time)
    (lesson : LessonRoom) (slots : List ScheduleSlot) : Type 0 where
  pub clock : ℕ × ℕ
  pub weekday : ℕ
  pub clock_read : parse_clock lesson.start_time ≡ ok clock
  pub weekday_read : parse_weekday to_lower lesson.weekday ≡ some weekday
  pub dated : All (IsDated to_lower cfg lesson now weekday clock (rounds_of cfg.weeks_ahead)) slots
  pub complete :
      (day : ℕ)
      → IsLessonDay to_lower cfg lesson now weekday (rounds_of cfg.weeks_ahead) day
      → (slot : ScheduleSlot) × Memᴰ slot slots × (cfg.location.day slot.start_time ≡ day)
  pub in_order : Increasing cfg slots
  pub count : length slots ≤ rounds_of cfg.weeks_ahead

abbrev expansion :
    (String → String) → Config → RoomSelector → LessonRoom → Time → ℕ → ℕ × ℕ → List ScheduleSlot
expansion to_lower cfg room lesson now weekday clock =
    expand_weeks to_lower cfg room lesson (week_start cfg.location now) weekday clock
      (rounds_of cfg.weeks_ahead) 0

expansion-IsExpansion :
    (to_lower : String → String) (cfg : Config) (r : IsRegular cfg.location) (room : RoomSelector)
    (lesson : LessonRoom) (now : Time) (weekday : ℕ) (clock : ℕ × ℕ)
    → parse_clock lesson.start_time ≡ ok clock
    → parse_weekday to_lower lesson.weekday ≡ some weekday
    → IsExpansion to_lower cfg now lesson (expansion to_lower cfg room lesson now weekday clock)
expansion-IsExpansion to_lower cfg r room lesson now weekday clock c d0 =
    let bounds = parse_clock_bounds lesson.start_time clock.0 clock.1 c in
    record {
      clock = clock;
      weekday = weekday;
      clock_read = c;
      weekday_read = d0;
      dated =
          All-mono
            (IsDated-of_IsSlotOf to_lower cfg r room lesson now weekday clock
              (rounds_of cfg.weeks_ahead) (parse_weekday-lt to_lower lesson.weekday weekday d0)
              bounds.0 bounds.1)
            (expansion to_lower cfg room lesson now weekday clock)
            (expand_weeks-IsSlotOf to_lower cfg room lesson (week_start cfg.location now) weekday
              clock (rounds_of cfg.weeks_ahead) 0);
      complete = λ day d. (
        slot_on cfg room lesson clock day,
        mem-expansion to_lower cfg r room lesson now weekday clock (rounds_of cfg.weeks_ahead)
            (parse_weekday-lt to_lower lesson.weekday weekday d0) bounds.0 bounds.1 day d,
        slot_on-day to_lower cfg r room lesson now weekday clock (rounds_of cfg.weeks_ahead)
            (parse_weekday-lt to_lower lesson.weekday weekday d0) bounds.0 bounds.1 day,
      );
      in_order =
          expand_weeks-Increasing to_lower cfg r room lesson now weekday clock
            (rounds_of cfg.weeks_ahead) (parse_weekday-lt to_lower lesson.weekday weekday d0)
            bounds.0 bounds.1 (rounds_of cfg.weeks_ahead) 0;
      count =
          length-expand_weeks-le to_lower cfg room lesson _ weekday clock
            (rounds_of cfg.weeks_ahead) 0;
    }

-- In a location where every day has each time of day once, an expansion that succeeds has read a
-- clock time and a weekday from the lesson, and has one slot, at that time and of 95 minutes, on
-- each day of that weekday that the lesson's week admits, from the Monday of the present week
-- through the configured number of weeks, and no other; the slots are in the order of their days,
-- and at most as many as weeks.
pub expand-IsExpansion :
    {S : Type 0} (to_lower : String → String) (now : S → Time × S) (p : Ports S) (cfg : Config)
    → IsRegular cfg.location
    → (room : RoomSelector) (lesson : LessonRoom) (s s' : S) (slots : List ScheduleSlot)
    → expand to_lower now p cfg room lesson s ≡ (ok slots, s')
    → IsExpansion to_lower cfg (now s).0 lesson slots
unfolding expand
expand-IsExpansion to_lower now p cfg r room lesson s s' slots h =
    elim (Result-cases (parse_clock lesson.start_time)) [
      | inr (e, c) ↦ absurd (ground arith)
      | inl (clock, c) ↦ elim (Option-cases (parse_weekday to_lower lesson.weekday)) [
        | inl d ↦ absurd (ground arith)
        | inr (weekday, d) ↦
            subst (IsExpansion to_lower cfg (now s).0 lesson) (ground arith)
              (expansion-IsExpansion to_lower cfg r room lesson (now s).0 weekday clock c d)
      ]
    ]
