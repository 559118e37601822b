-- ===== src/Bot/HomeworkLists/Saved.antt =====
-- A homework that a teacher saves is the newest of its group.
use uban_z.Prelude.{
  ℕ, suc, ◌≤◌, ◌<◌, ℤ, eqb, String, Bool, true, false, ◌&&◌, List, [], ◌∷◌, ◌++◌, any, find, filter,
  map, Option, none, some, ◌==◌, ok, ◌≡◌, refl, ap, arith, All, All-mono,
}
use mathlib.Core.List.{append-nil}
use uban_z.Bot.Tables.{Account, GroupRow, HomeworkRow, GroupHomework, StatusRow, Db, holds}
use uban_z.Bot.Session.{Session, calm, exec, begin_tx-calm}
use uban_z.Bot.Homework.{
  HwBrief, homework_text_of, fresh_homework, insert_homework, link_homework, is_link, save_steps,
  save_for_group,
}
use uban_z.Bot.HomeworkLists.{
  insert_newest, newest_first, is_status, subject_of, briefs_of_link, briefs_of_homework,
  briefs_for_user, list_for_user,
}

-- What the sequence says of the tables: no number above it is in use.
pub record IsNumbered (db : Db) : Type 0 where
  pub homeworks : All (λ h. h.id ≤ db.homework_seq) db.homeworks
  pub links : All (λ l. l.homework_id ≤ db.homework_seq) db.group_homeworks
  pub statuses : All (λ s. s.homework_id ≤ db.homework_seq) db.statuses

abbrev pub saved : String → ℕ → ℕ → Db → Db
saved text teacher_id group_id db = record db {
  homeworks = fresh_homework text teacher_id db ∷ db.homeworks;
  group_homeworks =
      record { group_id = group_id; homework_id = suc db.homework_seq } ∷ db.group_homeworks;
  homework_seq = suc db.homework_seq;
}

abbrev pub fresh_brief : String → ℕ → HwBrief
fresh_brief text id = record {
  id = id;
  subject = subject_of id;
  homework_text = text;
  status = "new";
}

insert_newest-All :
    (n : ℕ) (h : HomeworkRow) (hs : List HomeworkRow)
    → h.id ≤ n
    → All (λ x. x.id ≤ n) hs
    → All (λ x. x.id ≤ n) (insert_newest h hs)
unfolding insert_newest
insert_newest-All n h [] b a = (b, tt)
insert_newest-All n h (x ∷ xs) b a = ground (arith, insert_newest-All n h xs b a.1)

newest_first-All :
    (n : ℕ) (hs : List HomeworkRow) → All (λ x. x.id ≤ n) hs → All (λ x. x.id ≤ n) (newest_first hs)
unfolding newest_first
newest_first-All n [] a = tt
newest_first-All n (h ∷ hs) a =
    insert_newest-All n h (newest_first hs) a.0 (newest_first-All n hs a.1)

insert_newest_first :
    (h : HomeworkRow) (n : ℕ) (hs : List HomeworkRow)
    → n < h.id
    → All (λ x. x.id ≤ n) hs
    → insert_newest h hs ≡ h ∷ hs
unfolding insert_newest
insert_newest_first h n [] b a = refl
insert_newest_first h n (x ∷ xs) b a = ground arith

eqb-false : (a b : ℕ) → b < a → eqb a b ≡ false
eqb-false a b h = ground arith

eqb-true : (a : ℕ) → eqb a a ≡ true
eqb-true a = ground arith

no_link :
    (is : GroupHomework → Bool) (n : ℕ) (links : List GroupHomework)
    → ((l : GroupHomework) → l.homework_id ≤ n → is l ≡ false)
    → All (λ l. l.homework_id ≤ n) links
    → any is links ≡ false
no_link is n [] f a = refl
no_link is n (l ∷ links) f a = rw (f l a.0) (no_link is n links f a.1)

no_status :
    (student_id n : ℕ) (statuses : List StatusRow)
    → All (λ s. s.homework_id ≤ n) statuses
    → find (is_status student_id (suc n)) statuses ≡ none
no_status student_id n [] a = refl
no_status student_id n (s ∷ statuses) a = ground (arith, no_status student_id n statuses a.1)

module _ {db : Db} (numbered : IsNumbered db) (u : ℤ) (text : String)
    (teacher_id group_id : ℕ) where
  abbrev after : Db
  after = saved text teacher_id group_id db

  abbrev fresh : HomeworkRow
  fresh = fresh_homework text teacher_id db

  new_links :
      (l : GroupHomework) (students : List (Account ℕ))
      → briefs_of_link after u fresh l students
        ≡ map
            (λ _. fresh_brief text (suc db.homework_seq))
            (filter (λ s. holds u s && eqb s.about l.group_id) students)
  unfolding briefs_of_link
  new_links l [] = refl
  new_links l (s ∷ students) =
      ground
        (arith, new_links l students, no_status s.id db.homework_seq db.statuses numbered.statuses)

  no_old_links :
      (links : List GroupHomework)
      → All (λ l. l.homework_id ≤ db.homework_seq) links
      → briefs_of_homework after u fresh links ≡ []
  unfolding briefs_of_homework
  no_old_links [] a = refl
  no_old_links (l ∷ links) a = ground (arith, no_old_links links a.1)

  same_links :
      (h : HomeworkRow) (l : GroupHomework) (students : List (Account ℕ))
      → briefs_of_link after u h l students ≡ briefs_of_link db u h l students
  unfolding briefs_of_link
  same_links h l [] = refl
  same_links h l (s ∷ students) = ground (arith, same_links h l students)

  same_homework :
      (h : HomeworkRow) (links : List GroupHomework)
      → briefs_of_homework after u h links ≡ briefs_of_homework db u h links
  unfolding briefs_of_homework
  same_homework h [] = refl
  same_homework h (l ∷ links) = rw (same_links h l db.students, same_homework h links)

  same_homeworks :
      (hs : List HomeworkRow)
      → All (λ h. h.id ≤ db.homework_seq) hs
      → briefs_for_user after u hs ≡ briefs_for_user db u hs
  unfolding briefs_for_user briefs_of_homework
  same_homeworks [] a = refl
  same_homeworks (h ∷ hs) a =
      rw (eqb-false (suc db.homework_seq) h.id (omega (arith, a.0)))
        (rw (same_homework h db.group_homeworks, same_homeworks hs a.1))

  only_new :
      briefs_of_homework after u fresh after.group_homeworks
      ≡ map
          (λ _. fresh_brief text (suc db.homework_seq))
          (filter (λ s. holds u s && eqb s.about group_id) db.students)
  unfolding briefs_of_homework
  only_new = rw (eqb-true (suc db.homework_seq)) (
      rw (no_old_links db.group_homeworks numbered.links, append-nil)
        (new_links (record { group_id = group_id; homework_id = suc db.homework_seq }) db.students))

  listed :
      briefs_for_user after u (newest_first after.homeworks)
      ≡ map
          (λ _. fresh_brief text (suc db.homework_seq))
          (filter (λ s. holds u s && eqb s.about group_id) db.students)
        ++ briefs_for_user db u (newest_first db.homeworks)
  unfolding newest_first briefs_for_user
  listed =
      let old = newest_first-All db.homework_seq db.homeworks numbered.homeworks in
      rw (insert_newest_first fresh db.homework_seq (newest_first db.homeworks) (omega arith) old)
        (rw (only_new, same_homeworks (newest_first db.homeworks) old))

-- A saved homework.
module _ {db : Db} (numbered : IsNumbered db) (u : ℤ) (group subject text : String) where
  linked :
      (t_id g_id : ℕ) (text : String)
      → link_homework g_id (suc db.homework_seq) (insert_homework text t_id db).1
        ≡ saved text t_id g_id db
  unfolding link_homework insert_homework
  linked t_id g_id text = rw (
      no_link (is_link g_id (suc db.homework_seq)) db.homework_seq db.group_homeworks
        (λ l h. ground arith) numbered.links)

  save_steps-calm :
      {t : Account (Option String)} {g : GroupRow}
      → find (holds u) db.teachers ≡ some t
      → find (λ g. g.group_name == group) db.groups ≡ some g
      → save_steps u group subject text (calm db)
        ≡ (ok tt, calm (saved (homework_text_of subject text) t.id g.id db))
  unfolding exec insert_homework
  save_steps-calm {t} {g} taught grouped =
      rw taught (rw grouped (rw (linked t.id g.id (homework_text_of subject text))))

  pub save_for_group-calm :
      {t : Account (Option String)} {g : GroupRow}
      → find (holds u) db.teachers ≡ some t
      → find (λ g. g.group_name == group) db.groups ≡ some g
      → save_for_group u group subject text (calm db)
        ≡ (ok tt, calm (saved (homework_text_of subject text) t.id g.id db))
  unfolding save_for_group
  save_for_group-calm taught grouped =
      begin_tx-calm "SaveForGroup begin" (save_steps u group subject text) db
        (save_steps-calm taught grouped)

  -- If the numbers in use do not exceed the sequence and no statement fails, a homework that a
  -- teacher saves for a group comes first in the list of each student of that group, once, with
  -- the text `subject: text` and the status `new`; the rest of every list is what it was, and the
  -- numbers in use still do not exceed the sequence.
  pub save_for_group-list_for_user :
      (t : Account (Option String)) (g : GroupRow) (student : ℤ)
      → find (holds u) db.teachers ≡ some t
      → find (λ g. g.group_name == group) db.groups ≡ some g
      → (after : Session) × (old : List HwBrief) × (save_for_group u group subject text (calm db)
          ≡ (ok tt, after))
        × ((list_for_user student (calm db)).0 ≡ ok old)
        × ((list_for_user student after).0
            ≡ ok (
                map
                  (λ _. fresh_brief (homework_text_of subject text) (suc db.homework_seq))
                  (filter (λ s. holds student s && eqb s.about g.id) db.students)
                ++ old))
        × IsNumbered after.db
  unfolding list_for_user exec
  save_for_group-list_for_user t g student taught grouped = (
    calm (saved (homework_text_of subject text) t.id g.id db),
    briefs_for_user db student (newest_first db.homeworks),
    save_for_group-calm taught grouped,
    refl,
    ap ok (listed numbered student (homework_text_of subject text) t.id g.id),
    record {
      homeworks = (omega arith, All-mono (λ h b. omega arith) db.homeworks numbered.homeworks);
      links = (omega arith, All-mono (λ l b. omega arith) db.group_homeworks numbered.links);
      statuses = All-mono (λ s b. omega arith) db.statuses numbered.statuses;
    },
  )
