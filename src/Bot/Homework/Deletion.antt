-- ===== src/Bot/Homework/Deletion.antt =====
-- Who may change a homework, and what deleting it leaves.
use uban_z.Prelude.{
  ℤ, pos, eqb_ℤ, eqb_ℤ_iff, String, Bool, true, false, not, List, [], ◌∷◌, any, filter, map, ok,
  ◌≡◌, ◌≢◌, sym, ap, ◌∙◌, subst, ◌⊎◌, ◌↔◌, inl, inr, arith, Among, Bool-cases, any-eq-false,
  any-witness, Among-map,
}
use uban_z.Bot.Tables.{HomeworkRow, GroupHomework, StatusRow, NotificationRow, Db}
use uban_z.Bot.Session.{Session, calm, exec}
use uban_z.Bot.Homework.{
  has_number, is_taught_by, is_owned, set_text, clean_text, update, delete_by_teacher,
  delete_homeworks,
}
use uban_z.Bot.HomeworkLists.{check_existence, check_teacher_homework}
use uban_z.Bot.Homework.Editing.{set_text-foreign, update-calm, verdict}

module _ {A : Type 0} (p : A → Bool) where
  Among-filter : (a : A) (xs : List A) → Among a xs → p a ≡ true → Among a (filter p xs)
  Among-filter a [] m h = elim m [ ]
  Among-filter a (x ∷ xs) (inl e) h = rw (ap p (sym e) ∙ h) (inl e)
  Among-filter a (x ∷ xs) (inr m) h = elim (Bool-cases (p x)) [
    | inl e ↦ rw e (inr (Among-filter a xs m h))
    | inr e ↦ rw e (Among-filter a xs m h)
  ]

  Among-of_filter : (a : A) (xs : List A) → Among a (filter p xs) → Among a xs × (p a ≡ true)
  Among-of_filter a [] m = elim m [ ]
  Among-of_filter a (x ∷ xs) m = elim (Bool-cases (p x)) [
    | inl e ↦ elim (let k : (a ≡ x) ⊎ Among a (filter p xs) = rw e at m in k) [
      | inl q ↦ (inl q, ap p q ∙ e)
      | inr k ↦ let r = Among-of_filter a xs k in (inr r.0, r.1)
    ]
    | inr e ↦ let r = Among-of_filter a xs (rw e at m) in (inr r.0, r.1)
  ]

pub delete_by_teacher-calm :
    (u id : ℤ) (db : Db)
    → delete_by_teacher u id (calm db) ≡ (
      verdict u id db "homeworks.DeleteByTeacher" (any (is_owned u id db) db.homeworks),
      calm (delete_homeworks (is_owned u id db) id db),
    )
unfolding delete_by_teacher exec
delete_by_teacher-calm u id db = elim (Bool-cases (any (is_owned u id db) db.homeworks)) [
  | inl e ↦ rw e
  | inr e ↦ rw e
]

absent : {b : Bool} {a c : ℤ} → (b ≡ true) ↔ (a ≡ c) → a ≡ c → not b ≡ true → ⊥
absent {b} iff e h = ground (arith, iff.1 e)

-- Whatever number is given, a homework that a teacher does not teach is still there, unchanged,
-- after that teacher's update and after that teacher's deletion. No statement fails.
pub foreign_homework :
    (u id : ℤ) (db : Db) (text : String) (h : HomeworkRow)
    → Among h db.homeworks
    → is_taught_by u db h ≡ false
    → Among h (update u id text (calm db)).1.db.homeworks
      × Among h (delete_by_teacher u id (calm db)).1.db.homeworks
foreign_homework u id db text h m other =
    let foreign : is_owned u id db h ≡ false = ground arith in
    (
      rw (update-calm u id db text) (
          subst (λ x. Among x (map (set_text (is_owned u id db) (clean_text text)) db.homeworks))
            (set_text-foreign (is_owned u id db) (clean_text text) h foreign)
            (Among-map (set_text (is_owned u id db) (clean_text text)) h db.homeworks m)),
      rw (delete_by_teacher-calm u id db) (elim (Bool-cases (any (is_owned u id db) db.homeworks)) [
        | inl e ↦
            rw e (Among-filter (λ h. not (is_owned u id db h)) h db.homeworks m (ground arith))
        | inr e ↦ rw e m
      ]),
    )

module _ (u id : ℤ) (db : Db)
    (by_number : (a b : HomeworkRow)
      → Among a db.homeworks
      → Among b db.homeworks
      → a.id ≡ b.id
      → a ≡ b)
    (deleted : (delete_by_teacher u id (calm db)).0 ≡ ok tt) where
  abbrev own : HomeworkRow → Bool
  own = is_owned u id db

  had : any own db.homeworks ≡ true
  had = elim (Bool-cases (any own db.homeworks)) [
    | inl e ↦ e
    | inr e ↦
        let r : verdict u id db "homeworks.DeleteByTeacher" (any own db.homeworks) ≡ ok tt =
          sym (ap (λ r. r.0) (delete_by_teacher-calm u id db)) ∙ deleted in
        ground arith
  ]

  -- The row with the number is the teacher's own.
  numbered-owned : (h : HomeworkRow) → Among h db.homeworks → has_number id h ≡ true → own h ≡ true
  numbered-owned h m e =
      let (o, k, p) = any-witness own db.homeworks had in
      let q : has_number id o ≡ true = ground arith in
      let same =
        by_number h o m k (ground (arith, eqb_ℤ_iff (pos h.id) id, eqb_ℤ_iff (pos o.id) id)) in
      ap own same ∙ p

  gone :
      (h : HomeworkRow) → Among h (filter (λ h. not (own h)) db.homeworks) → has_number id h ≡ false
  gone h m = elim (Bool-cases (has_number id h)) [
    | inr e ↦ e
    | inl e ↦
        let (k, p) = Among-of_filter (λ h. not (own h)) h db.homeworks m in
        let q = numbered-owned h k e in ground arith
  ]

  -- If homeworks have numbers of their own and a teacher's deletion of one succeeds, then
  -- afterwards no student and no teacher finds a homework of that number, no link, status or
  -- notification of it is left, and every other homework is still there.
  pub delete_by_teacher_lem :
      (after : Session) × (delete_by_teacher u id (calm db) ≡ (ok tt, after))
      × ((v : ℤ) → (check_existence v id after).0 ≡ ok false)
      × ((v : ℤ) → (check_teacher_homework v id after).0 ≡ ok false)
      × ((l : GroupHomework) → Among l after.db.group_homeworks → pos l.homework_id ≢ id)
      × ((s : StatusRow) → Among s after.db.statuses → pos s.homework_id ≢ id)
      × ((n : NotificationRow) → Among n after.db.notifications → n.homework_id ≢ id)
      × ((h : HomeworkRow) → Among h db.homeworks → pos h.id ≢ id → Among h after.db.homeworks)
  unfolding check_existence check_teacher_homework exec
  delete_by_teacher_lem = (
    calm (record db {
      homeworks = filter (λ h. not (own h)) db.homeworks;
      group_homeworks = filter (λ l. not (eqb_ℤ (pos l.homework_id) id)) db.group_homeworks;
      statuses = filter (λ s. not (eqb_ℤ (pos s.homework_id) id)) db.statuses;
      notifications = filter (λ n. not (eqb_ℤ n.homework_id id)) db.notifications;
    }),
    rw (delete_by_teacher-calm u id db) (rw had),
    λ v. ap ok (any-eq-false _ (filter (λ h. not (own h)) db.homeworks) (λ h m. rw (gone h m))),
    λ v. ap ok (any-eq-false _ (filter (λ h. not (own h)) db.homeworks) (λ h m. rw (gone h m))),
    λ l m e.
        absent (eqb_ℤ_iff (pos l.homework_id) id) e
          (Among-of_filter (λ l. not (eqb_ℤ (pos l.homework_id) id)) l db.group_homeworks m).1,
    λ s m e.
        absent (eqb_ℤ_iff (pos s.homework_id) id) e
          (Among-of_filter (λ s. not (eqb_ℤ (pos s.homework_id) id)) s db.statuses m).1,
    λ n m e.
        absent (eqb_ℤ_iff n.homework_id id) e
          (Among-of_filter (λ n. not (eqb_ℤ n.homework_id id)) n db.notifications m).1,
    λ h m e.
        Among-filter (λ h. not (own h)) h db.homeworks m (ground (arith, eqb_ℤ_iff (pos h.id) id)),
  )
