-- ===== src/Bot/Users/Roles.antt =====
-- The role and the group that a user has after signing in or leaving.
use uban_z.Prelude.{
  ℕ, ℤ, pos, eqb, eqb_ℤ_iff, eqb_ℤ_refl, ◌<◌, String, Bool, true, false, List, [], ◌∷◌, map, find,
  Option, some, ok, ◌≡◌, ◌≢◌, refl, sym, ap, ◌∙◌, inl, inr, arith, Among, Bool-cases, find-eq-some,
  Among-map, Among-of_map, any-eq-true, trim_space,
}
use uban_z.Bot.Tables.{Account, GroupRow, Db, holds, is_bound}
use uban_z.Bot.Session.{Session, calm, exec}
use uban_z.Bot.Users.{
  student_base, teacher_base, account_of, login_student, login_teacher, leave, get_role, get_group,
  group_of, role_student, role_teacher, role_guest,
}
use uban_z.Bot.Users.Keys.{IsKeyed, release, give, unbound-release, is_bound-release}
use uban_z.Bot.Users.Login.{
  IsSound, student_in, teacher_in, left, ordinary, student_in-IsSound, teacher_in-IsSound,
  left-IsSound, login_student-calm, login_teacher-calm, leave-calm,
}

module _ {D : Type 0} where
  -- A row that is given away leaves the other users as they were, except the one that held it.
  is_bound-give :
      (id : ℕ) (u v : ℤ) (rows : List (Account D))
      → v ≢ u
      → ((a : Account D) → Among a rows → a.id ≡ id → a.user_id ≢ v)
      → is_bound v (map (give id u) rows) ≡ is_bound v rows
  is_bound-give id u v [] other free = refl
  is_bound-give id u v (a ∷ rows) other free = ground (
    arith,
    is_bound-give id u v rows other (λ b m. free b (inr m)),
    free a (inl refl),
    eqb_ℤ_iff u v,
    eqb_ℤ_iff a.user_id v,
  )

  found_row :
      (login password : String) (rows : List (Account D)) {s : Account D}
      → account_of login password rows ≡ some s
      → Among s rows
  unfolding account_of
  found_row login password rows h = (find-eq-some _ rows h).0

  release_id : (base : ℕ) (u : ℤ) (a : Account D) → (release base u a).id ≡ a.id
  release_id base u a = ground arith

-- The group of a user that holds one row, in a group that there is.
group_of_only :
    (u : ℤ) (s : Account ℕ) (rows : List (Account ℕ)) (groups : List GroupRow) (g : GroupRow)
    → Among s rows
    → ((b : Account ℕ) → Among b rows → holds u b ≡ true → b ≡ s)
    → holds u s ≡ true
    → find (λ g. eqb g.id s.about) groups ≡ some g
    → group_of u rows groups ≡ some g.group_name
unfolding group_of
group_of_only u s [] groups g m only h f = elim m [ ]
group_of_only u s (x ∷ rows) groups g (inl e) only h f =
    rw (ap (λ (b : Account ℕ). holds u b) (sym e) ∙ h)
      (rw (ap (λ (b : Account ℕ). find (λ g. eqb g.id b.about) groups) (sym e) ∙ f))
group_of_only u s (x ∷ rows) groups g (inr m) only h f = elim (Bool-cases (holds u x)) [
  | inl p ↦ rw p (rw (ap (λ b. find (λ g. eqb g.id b.about) groups) (only x (inl refl) p) ∙ f))
  | inr p ↦ rw p (group_of_only u s rows groups g m (λ b k. only b (inr k)) h f)
]

module _ {D : Type 0} {base : ℕ} (positive : 0 < base) {rows : List (Account D)}
    (keyed : IsKeyed base rows) (n : ℕ) (s : Account D) (m : Among s rows) where
  -- The rows of the table into which the user signs in.
  abbrev bound : List (Account D)
  bound = map (give s.id (pos n)) (map (release base (pos n)) rows)

  abbrev own : Account D
  own = give s.id (pos n) (release base (pos n) s)

  own-Among : Among own bound
  own-Among =
      Among-map (give s.id (pos n)) (release base (pos n) s) _
        (Among-map (release base (pos n)) s rows m)

  bound_self : is_bound (pos n) bound ≡ true
  bound_self = any-eq-true (holds (pos n)) bound own-Among (ground (arith, eqb_ℤ_refl (pos n)))

  bound_other : (v : ℕ) → v ≢ n → s.user_id ≢ pos v → is_bound (pos v) bound ≡ is_bound (pos v) rows
  bound_other v other free =
      is_bound-give s.id (pos n) (pos v) (map (release base (pos n)) rows)
        (λ e. other (ground arith))
        (λ a' k e.
          let (a, k', p) = Among-of_map (release base (pos n)) rows k in
          let same = keyed.by_id a s k' m (ground arith) in
          λ q. elim (Bool-cases (holds (pos n) a)) [
            | inl h ↦ ground (arith, ordinary base v a.id)
            | inr h ↦ free (ground arith)
          ])
      ∙ is_bound-release base (pos n) (pos v) rows (λ e. other (ground arith)) (ordinary base v)

abbrev pub role_of : Bool → Bool → String
role_of true teacher = role_student
role_of false true = role_teacher
role_of false false = role_guest

pub get_role-calm :
    (u : ℤ) (db : Db)
    → get_role u (calm db)
      ≡ (ok (role_of (is_bound u db.students) (is_bound u db.teachers)), calm db)
unfolding get_role exec
get_role-calm u db = elim (Bool-cases (is_bound u db.students)) [
  | inl p ↦ rw p
  | inr p ↦ rw p (elim (Bool-cases (is_bound u db.teachers)) [ inl q ↦ rw q | inr q ↦ rw q ])
]

module _ {db : Db} (sound : IsSound db) (n : ℕ) (login password : String) where
  -- If the tables are keyed and no statement fails, a user who signs in with the login and
  -- password of a student's account is a student from then on, of that account's group if there is
  -- one by its identifier, and holds no teacher's row; every other user keeps the role, except the
  -- one who held that account before; and the tables stay keyed.
  pub login_student-get_role :
      (s : Account ℕ) (g : GroupRow)
      → account_of (trim_space login) password db.students ≡ some s
      → find (λ g. eqb g.id s.about) db.groups ≡ some g
      → (after : Session) × (login_student (pos n) login password (calm db) ≡ (ok tt, after))
        × (get_role (pos n) after ≡ (ok role_student, after))
        × (get_group (pos n) after ≡ (ok g.group_name, after))
        × (is_bound (pos n) after.db.teachers ≡ false)
        × ((v : ℕ)
            → v ≢ n
            → s.user_id ≢ pos v
            → (get_role (pos v) after).0 ≡ (get_role (pos v) (calm db)).0)
        × IsSound after.db
  unfolding get_group exec
  login_student-get_role s g found grouped =
      let m = found_row (trim_space login) password db.students found in
      let keyed = (student_in-IsSound sound n s.id).students in
      let own_row = own-Among (omega arith) sound.students n s m in
      (
        calm (student_in (pos n) s.id db),
        login_student-calm sound n login password found,
        rw (get_role-calm, bound_self (omega arith) sound.students n s m),
        rw (
            group_of_only (pos n) (own (omega arith) sound.students n s m) _ db.groups g own_row
              (λ b k h. keyed.by_user b _ k own_row (ground arith))
              (ground (arith, eqb_ℤ_refl (pos n))) (ground arith)),
        unbound-release (omega arith) sound.teachers (pos n) (ordinary teacher_base n),
        λ v other free.
            rw
              (
                get_role-calm (pos v) (student_in (pos n) s.id db),
                bound_other (omega arith) sound.students n s m v other free,
              )
              (rw
                (is_bound-release teacher_base (pos n) (pos v) db.teachers
                  (λ e. other (ground arith)) (ordinary teacher_base v))
                (rw (get_role-calm (pos v) db))),
        student_in-IsSound sound n s.id,
      )

  pub login_teacher-get_role :
      (t : Account (Option String))
      → account_of (trim_space login) password db.teachers ≡ some t
      → (after : Session) × (login_teacher (pos n) login password (calm db) ≡ (ok tt, after))
        × (get_role (pos n) after ≡ (ok role_teacher, after))
        × ((v : ℕ)
            → v ≢ n
            → t.user_id ≢ pos v
            → (get_role (pos v) after).0 ≡ (get_role (pos v) (calm db)).0)
        × IsSound after.db
  login_teacher-get_role t found =
      let m = found_row (trim_space login) password db.teachers found in
      (
        calm (teacher_in (pos n) t.id db),
        login_teacher-calm sound n login password found,
        rw
            (
              get_role-calm,
              unbound-release (omega arith) sound.students (pos n) (ordinary student_base n),
            )
            (rw (bound_self (omega arith) sound.teachers n t m)),
        λ v other free.
            rw
              (
                get_role-calm (pos v) (teacher_in (pos n) t.id db),
                is_bound-release student_base (pos n) (pos v) db.students
                    (λ e. other (ground arith)) (ordinary student_base v),
              )
              (rw (bound_other (omega arith) sound.teachers n t m v other free)
                (rw (get_role-calm (pos v) db))),
        teacher_in-IsSound sound n t.id,
      )

module _ {db : Db} (sound : IsSound db) (n : ℕ) where
  -- If the tables are keyed and no statement fails, a user who leaves is a guest from then on,
  -- every other user keeps the role, and the tables stay keyed.
  pub leave-get_role :
      (after : Session) × (leave (pos n) (calm db) ≡ (ok tt, after))
      × (get_role (pos n) after ≡ (ok role_guest, after))
      × ((v : ℕ) → v ≢ n → (get_role (pos v) after).0 ≡ (get_role (pos v) (calm db)).0)
      × IsSound after.db
  leave-get_role = (
    calm (left (pos n) db),
    leave-calm sound n,
    rw
        (
          get_role-calm,
          unbound-release (omega arith) sound.students (pos n) (ordinary student_base n),
        )
        (rw (unbound-release (omega arith) sound.teachers (pos n) (ordinary teacher_base n))),
    λ v other.
        rw
          (
            get_role-calm (pos v) (left (pos n) db),
            is_bound-release student_base (pos n) (pos v) db.students (λ e. other (ground arith))
                (ordinary student_base v),
          )
          (rw
            (is_bound-release teacher_base (pos n) (pos v) db.teachers (λ e. other (ground arith))
              (ordinary teacher_base v))
            (rw (get_role-calm (pos v) db))),
    left-IsSound sound n,
  )
