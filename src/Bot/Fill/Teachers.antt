-- ===== src/Bot/Fill/Teachers.antt =====
-- A teacher that the import meets again is found again.
use uban_z.Prelude.{
  ℕ, ◌≤◌, eqb, eqb_ℤ_iff, String, false, List, ◌∷◌, any, find, map, Option, ◌≡◌, ◌≢◌, sym, ap, ◌∙◌,
  inl, inr, arith, Among, Bool-cases, Option-cases, Result-cases, any-eq-true,
}
use uban_z.Bot.Tables.{Account, Db, holds, is_bound}
use uban_z.Bot.Session.{calm, exec}
use uban_z.Bot.Users.{teacher_base, add_user}
use uban_z.Bot.Users.Keys.{IsKeyed, map-IsKeyed}
use uban_z.Bot.Fill.{
  is_named, fresh_teacher, insert_teacher, with_login, login_taken, give_login, teacher_name_or,
  teacher_key, ensure_teacher, login_steps, pseudo_telegram_id,
}
use uban_z.Bot.Fill.Numbers.{pseudo_telegram_id-ne-placeholder}

-- A new teacher keeps the table's keys.
module _ (db : Db) (keyed : IsKeyed teacher_base db.teachers)
    (below : (t : Account (Option String)) → Among t db.teachers → t.id ≤ db.teacher_seq)
    (key name : String) where
  unheld :
      is_bound (pseudo_telegram_id key) db.teachers ≡ false
      → (t : Account (Option String)) → Among t db.teachers
      → t.user_id ≢ (pseudo_telegram_id key)
  unheld free t m e =
      let held =
        any-eq-true (holds (pseudo_telegram_id key)) db.teachers m
          ((eqb_ℤ_iff t.user_id (pseudo_telegram_id key)).1 e) in
      cc

  fresh-IsKeyed :
      is_bound (pseudo_telegram_id key) db.teachers ≡ false
      → IsKeyed teacher_base (fresh_teacher (pseudo_telegram_id key) name db ∷ db.teachers)
  fresh-IsKeyed free = record {
    by_id = λ a b m k e. elim m [
      | inl p ↦ elim k [
        | inl q ↦ p ∙ sym q
        | inr k' ↦ absurd (omega (arith, below b k', ap (λ t. t.id) p, e))
      ]
      | inr m' ↦ elim k [
        | inl q ↦ absurd (omega (arith, below a m', ap (λ t. t.id) q, e))
        | inr k' ↦ keyed.by_id a b m' k' e
      ]
    ];
    by_user = λ a b m k e. elim m [
      | inl p ↦ elim k [
        | inl q ↦ p ∙ sym q
        | inr k' ↦ absurd (unheld free b k' (sym e ∙ ap (λ t. t.user_id) p))
      ]
      | inr m' ↦ elim k [
        | inl q ↦ absurd (unheld free a m' (e ∙ ap (λ t. t.user_id) q))
        | inr k' ↦ keyed.by_user a b m' k' e
      ]
    ];
    reserved = λ a k m e. elim m [
      | inl p ↦
          absurd ((pseudo_telegram_id-ne-placeholder key k).1 (sym (ap (λ t. t.user_id) p) ∙ e))
      | inr m' ↦ keyed.reserved a k m' e
    ];
  }

  pub insert_teacher-IsKeyed :
      IsKeyed teacher_base (insert_teacher (pseudo_telegram_id key) name db).teachers
  unfolding insert_teacher
  insert_teacher-IsKeyed = elim (Bool-cases (is_bound (pseudo_telegram_id key) db.teachers)) [
    | inl e ↦ rw e keyed
    | inr e ↦ rw e (elim (Bool-cases (any (is_named name) db.teachers)) [
      | inl f ↦ rw f keyed
      | inr f ↦ rw f (fresh-IsKeyed e)
    ])
  ]

with_login_id : (id : ℕ) (t : Account (Option String)) → (with_login id t).id ≡ t.id
with_login_id id t = elim (Bool-cases (eqb t.id id)) [ inl e ↦ rw e | inr e ↦ rw e ]

with_login_user : (id : ℕ) (t : Account (Option String)) → (with_login id t).user_id ≡ t.user_id
with_login_user id t = elim (Bool-cases (eqb t.id id)) [ inl e ↦ rw e | inr e ↦ rw e ]

with_login-IsKeyed :
    (id : ℕ) {rows : List (Account (Option String))}
    → IsKeyed teacher_base rows
    → IsKeyed teacher_base (map (with_login id) rows)
with_login-IsKeyed id keyed =
    map-IsKeyed keyed (with_login id) (with_login_id id)
      (λ a b m k e. keyed.by_user a b m k (sym (with_login_user id a) ∙ e ∙ with_login_user id b))
      (λ a k m e. keyed.reserved a k m (sym (with_login_user id a) ∙ e))

give_login-IsKeyed :
    (id : ℕ) (db : Db)
    → IsKeyed teacher_base db.teachers
    → IsKeyed teacher_base (give_login id db).1.teachers
unfolding give_login
give_login-IsKeyed id db keyed = elim (Bool-cases (login_taken id db.teachers)) [
  | inl e ↦ rw e keyed
  | inr e ↦ rw e (with_login-IsKeyed id keyed)
]

login_steps-IsKeyed :
    (name : String) (db : Db)
    → IsKeyed teacher_base db.teachers
    → IsKeyed teacher_base (login_steps name (calm db)).1.db.teachers
unfolding exec
login_steps-IsKeyed name db keyed = elim (Option-cases (find (is_named name) db.teachers)) [
  | inl e ↦ rw e keyed
  | inr (t, e) ↦ rw e (elim (Result-cases (give_login t.id db).0) [
    | inl (a, f) ↦ rw f (give_login-IsKeyed t.id db keyed)
    | inr (x, f) ↦ rw f (give_login-IsKeyed t.id db keyed)
  ])
]

-- If the table of teachers is keyed and its numbers do not exceed the sequence, the import of a
-- teacher's name leaves the table keyed, whether the import succeeds or not: rows are told apart
-- by number and by user, and a user set aside for a row is held by that row only. No statement
-- fails but by a constraint.
pub ensure_teacher-IsKeyed :
    (db : Db) (teacher_name : String)
    → IsKeyed teacher_base db.teachers
    → ((t : Account (Option String)) → Among t db.teachers → t.id ≤ db.teacher_seq)
    → IsKeyed teacher_base (ensure_teacher teacher_name (calm db)).1.db.teachers
unfolding ensure_teacher exec
ensure_teacher-IsKeyed db teacher_name keyed below =
    let name = teacher_name_or teacher_name in
    let u = pseudo_telegram_id (teacher_key name) in
    let entered = record db { users = add_user u db.users } in
    login_steps-IsKeyed name (insert_teacher u name entered)
      (insert_teacher-IsKeyed entered keyed below (teacher_key name) name)
