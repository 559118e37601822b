-- ===== src/Bot/Lessons/Days.antt =====
-- The days that a user is shown are those that the other queries find lessons on.
use uban_z.Prelude.{
  ℕ, zero, suc, trim_left, trim_right, is_space, ◌≤◌, ℤ, eqb, eqb_iff, ltb, String, Bool, true,
  List, [], ◌∷◌, filter, map, eq_iff, ok, trim_space, if◌then◌else◌, ◌≡◌, ◌≢◌, refl, sym, ap, ◌∙◌,
  subst, inl, inr, ◌⊎◌, arith, Among, Among-map, Bool-cases, any-witness,
}
use uban_z.Bot.Tables.{LessonRow, Db}
use uban_z.Bot.Session.{calm, exec}
use uban_z.Bot.Lessons.{
  weekday_number, weekday_name, has_group, is_teacher_lesson, has_teacher_lesson, insert_day,
  days_of, get_days_with_lessons_by_group,
}
use uban_z.Bot.Fill

-- The two readers of a day's name agree on the days of the week; a name that is none is 0 in one and Monday in the other.
pub weekday_number-agrees :
    (day : String)
    → Fill.weekday_number day ≡ (if eqb (weekday_number day) 0 then 1 else weekday_number day)
unfolding weekday_number Fill.weekday_number
weekday_number-agrees day = ground arith

-- A day's name stands for its number.
pub weekday_number-weekday_name :
    (day : ℕ) → 1 ≤ day → day ≤ 7 → weekday_number (weekday_name day) ≡ day
unfolding weekday_number weekday_name trim_space trim_left trim_right is_space
weekday_number-weekday_name zero h k = absurd (omega (arith, h))
weekday_number-weekday_name (suc zero) h k = refl
weekday_number-weekday_name (suc (suc zero)) h k = refl
weekday_number-weekday_name (suc (suc (suc zero))) h k = refl
weekday_number-weekday_name (suc (suc (suc (suc zero)))) h k = refl
weekday_number-weekday_name (suc (suc (suc (suc (suc zero))))) h k = refl
weekday_number-weekday_name (suc (suc (suc (suc (suc (suc zero)))))) h k = refl
weekday_number-weekday_name (suc (suc (suc (suc (suc (suc (suc zero))))))) h k = refl
weekday_number-weekday_name (suc (suc (suc (suc (suc (suc (suc (suc n)))))))) h k =
    absurd (omega (arith, k))

pub weekday_name-weekday_number :
    (day : String) → weekday_number day ≢ 0 → weekday_name (weekday_number day) ≡ trim_space day
unfolding weekday_number weekday_name
weekday_name-weekday_number day known = ground (
  arith,
  eq_iff (trim_space day) "Понедельник",
  eq_iff (trim_space day) "Вторник",
  eq_iff (trim_space day) "Среда",
  eq_iff (trim_space day) "Четверг",
  eq_iff (trim_space day) "Пятница",
  eq_iff (trim_space day) "Суббота",
  eq_iff (trim_space day) "Воскресенье",
)

insert_day-Among : (d e : ℕ) (days : List ℕ) → (e ≡ d) ⊎ Among e days → Among e (insert_day d days)
unfolding insert_day
insert_day-Among d e [] (inl p) = inl p
insert_day-Among d e [] (inr m) = elim m [ ]
insert_day-Among d e (x ∷ days) h = elim (Bool-cases (ltb d x)) [
  | inl a ↦ rw a h
  | inr a ↦ rw a (elim (Bool-cases (eqb d x)) [
    | inl b ↦ rw b (elim h [ inl p ↦ inl (p ∙ (eqb_iff d x).0 b) | inr m ↦ m ])
    | inr b ↦ rw b (elim h [
      | inl p ↦ inr (insert_day-Among d e days (inl p))
      | inr (inl q) ↦ inl q
      | inr (inr m) ↦ inr (insert_day-Among d e days (inr m))
    ])
  ])
]

days_of-Among :
    (l : LessonRow) (test : LessonRow → Bool) (lessons : List LessonRow)
    → Among l lessons
    → test l ≡ true
    → Among l.weekday (days_of (filter test lessons))
unfolding days_of
days_of-Among l test [] m t = elim m [ ]
days_of-Among l test (x ∷ lessons) (inl e) t = rw (ap test (sym e) ∙ t) (
    insert_day-Among x.weekday l.weekday (days_of (filter test lessons))
      (inl (ap (λ r. r.weekday) e)))
days_of-Among l test (x ∷ lessons) (inr m) t = elim (Bool-cases (test x)) [
  | inl a ↦ rw a (
      insert_day-Among x.weekday l.weekday (days_of (filter test lessons))
        (inr (days_of-Among l test lessons m t)))
  | inr a ↦ rw a (days_of-Among l test lessons m t)
]

-- If every lesson has a weekday from 1, no statement fails, and a teacher has a lesson with a
-- group on a day, then that day is among the days on which the group is said to have lessons.
pub has_teacher_lesson-days :
    (u : ℤ) (group day subject : String) (db : Db)
    → ((l : LessonRow) → Among l db.lessons → 1 ≤ l.weekday)
    → (has_teacher_lesson u group day subject (calm db)).0 ≡ ok true
    → (days : List String) × ((get_days_with_lessons_by_group group (calm db)).0 ≡ ok days)
      × Among (trim_space day) days
unfolding has_teacher_lesson get_days_with_lessons_by_group exec
has_teacher_lesson-days u group day subject db checked h =
    let (l, m, t) =
      any-witness (is_teacher_lesson u group (weekday_number day) subject db) db.lessons
        (ground arith) in
    let same : l.weekday ≡ weekday_number day = ground arith in
    let in_group : has_group group db l ≡ true = ground arith in
    let positive = checked l m in
    let listed =
      Among-map weekday_name l.weekday _
        (days_of-Among l (has_group group db) db.lessons m in_group) in
    let name = weekday_name-weekday_number day (λ z. absurd (omega (arith, positive, same, z))) in
    (
      map weekday_name (days_of (filter (has_group group db) db.lessons)),
      refl,
      subst (λ d. Among d (map weekday_name (days_of (filter (has_group group db) db.lessons))))
          (ap weekday_name same ∙ name) listed,
    )
