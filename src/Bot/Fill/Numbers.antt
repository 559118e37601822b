-- ===== src/Bot/Fill/Numbers.antt =====
-- The numbers that the import of the bot makes up stay in the ranges that the tables allow.
use uban_z.Prelude.{
  ℕ, ◌≤◌, pos, negsuc, eqb, String, true, ◌||◌, List, [], ◌∷◌, ◌==◌, trim_space, atoi, ◌≡◌, ◌≢◌,
  refl, inl, inr, arith, Bool-cases, Option-cases,
}
use uban_z.Bot.Users.{placeholder, student_base, teacher_base}
use uban_z.Bot.Source.{LessonStudent}
use uban_z.Bot.Fill.{
  weekday_number, week_of_parts, week_number, key_of_lesson, is_lesson_valid, is_week,
  pseudo_telegram_id, fields,
}

pub weekday_number_bounds : (day : String) → (1 ≤ weekday_number day) × (weekday_number day ≤ 7)
unfolding weekday_number
weekday_number_bounds day = ground arith

week_of_parts-is_week : (parts : List String) → is_week (week_of_parts parts) ≡ true
unfolding week_of_parts
week_of_parts-is_week [] = refl
week_of_parts-is_week (p ∷ parts) = elim (Option-cases (atoi p)) [
  | inl e ↦ rw e (week_of_parts-is_week parts)
  | inr (pos n, e) ↦ rw e (elim (Bool-cases (eqb n 1 || eqb n 2)) [
    | inl f ↦ rw f f
    | inr f ↦ rw f (week_of_parts-is_week parts)
  ])
  | inr (negsuc n, e) ↦ rw e (week_of_parts-is_week parts)
]

week_number-is_week : (week : String) → is_week (week_number week) ≡ true
unfolding week_number
week_number-is_week week = elim (Bool-cases (trim_space week == "")) [
  | inl e ↦ rw e
  | inr e ↦ rw e (week_of_parts-is_week (fields week))
]

-- Whatever the page says, the weekday and the week that the import makes of a lesson pass the
-- checks of the table of lessons.
pub key_of_lesson_valid :
    (l : LessonStudent) (teacher_id room_id : ℕ)
    → is_lesson_valid (key_of_lesson l teacher_id room_id) ≡ true
unfolding key_of_lesson
key_of_lesson_valid l teacher_id room_id =
    ground (arith, weekday_number_bounds l.weekday, week_number-is_week l.week)

-- The user made up for a teacher is none that a row is set aside with.
pub pseudo_telegram_id-ne-placeholder :
    (key : String) (k : ℕ)
    → (pseudo_telegram_id key ≢ placeholder student_base k)
      × (pseudo_telegram_id key ≢ placeholder teacher_base k)
unfolding pseudo_telegram_id
pseudo_telegram_id-ne-placeholder key k = (λ e. ground arith, λ e. ground arith)
