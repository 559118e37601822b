-- ===== src/Bot/Homework/Editing.antt =====
-- Who may change and delete a homework, and what is left of it.
use Prim.Native.Char.{code}
use mathlib.Core.Path.{subst}
use text.Mathlib.TextLemmas.{cons-append, nil-append}
use uban_z.Prelude.{
  ℤ, eqb, String, Bool, true, false, List, [], ◌∷◌, any, map, some, Result, ok, err, ◌≡◌, refl, sym,
  ap, ◌∙◌, inl, inr, arith, Among, Bool-cases, Option-cases,
}
use uban_z.Bot.Tables.{HomeworkRow, Db}
use uban_z.Bot.Session.{Error, calm, exec}
use uban_z.Bot.Homework.{
  concat, homework_text_of, is_owned, left_of_colon, replace_text, set_text, clean_text, update,
  forbidden,
}

colon-append : (rest : String) → left_of_colon (concat ":" rest) ≡ some ":"
unfolding left_of_colon
colon-append rest = ap left_of_colon (cons-append ":" "" rest)

-- What stands up to the first colon stays when something is put behind it.
left_of_colon-append :
    (old rest : String) (t : String)
    → left_of_colon old ≡ some t
    → left_of_colon (concat t rest) ≡ some t
unfolding left_of_colon
left_of_colon-append String.[] rest t h = cc
left_of_colon-append (String.◌∷◌ c s) rest t h = elim (Bool-cases (eqb (code c) b':')) [
  | inl e ↦
      let same : ":" ≡ t = ground arith in
      subst (λ t. left_of_colon (concat t rest) ≡ some t) same (colon-append rest)
  | inr e ↦ elim (Option-cases (left_of_colon s)) [
    | inl f ↦ ground arith
    | inr (t', f) ↦
        let same : String.◌∷◌ c t' ≡ t = ground arith in
        subst (λ t. left_of_colon (concat t rest) ≡ some t) same
          (rw (cons-append c t' rest) (rw e (rw (left_of_colon-append s rest t' f))))
  ]
]

-- The text of a saved homework has a colon.
left_of_colon-text :
    (s rest : String) → (t : String) × (left_of_colon (homework_text_of s rest) ≡ some t)
unfolding left_of_colon
left_of_colon-text String.[] rest =
    (":", rw (nil-append (concat ": " rest)) (ap left_of_colon (cons-append ":" " " rest)))
left_of_colon-text (String.◌∷◌ c s) rest = elim (Bool-cases (eqb (code c) b':')) [
  | inl e ↦ (":", rw (cons-append c s (concat ": " rest)) (rw e))
  | inr e ↦
      let r = left_of_colon-text s rest in
      (String.◌∷◌ c r.0, rw (cons-append c s (concat ": " rest)) (rw e (rw r.1)))
]

-- A second text takes the place of the first, the subject stays.
replace_text_last :
    (old a b : String) (t : String)
    → left_of_colon old ≡ some t
    → replace_text (replace_text old a) b ≡ replace_text old b
unfolding replace_text
replace_text_last old a b t h =
    rw (h, replace_text) (rw (left_of_colon-append old (concat " • " a) t h))

with_text : String → HomeworkRow → HomeworkRow
with_text text h = record h { text = text }

set_text-owned :
    (test : HomeworkRow → Bool) (text : String) (h : HomeworkRow)
    → test h ≡ true
    → set_text test text h ≡ with_text (replace_text h.text text) h
unfolding with_text
set_text-owned test text h e = rw e

pub set_text-foreign :
    (test : HomeworkRow → Bool) (text : String) (h : HomeworkRow)
    → test h ≡ false
    → set_text test text h ≡ h
set_text-foreign test text h e = rw e

module _ (u id : ℤ) (db : Db) where
  abbrev own : HomeworkRow → Bool
  own = is_owned u id db

  own-set_text : (text : String) (h : HomeworkRow) → own (set_text own text h) ≡ own h
  own-set_text text h = elim (Bool-cases (own h)) [
    | inl e ↦ rw (e, set_text) e
    | inr e ↦ rw (e, set_text) e
  ]

  any-set_text :
      (text : String) (hs : List HomeworkRow) → any own (map (set_text own text) hs) ≡ any own hs
  any-set_text text [] = refl
  any-set_text text (h ∷ hs) = rw (own-set_text text h) (rw (any-set_text text hs))

  set_text-set_text :
      (a b : String) (h : HomeworkRow)
      → (own h ≡ true → (t : String) × (left_of_colon h.text ≡ some t))
      → set_text own b (set_text own a h) ≡ set_text own b h
  unfolding with_text
  set_text-set_text a b h colon = elim (Bool-cases (own h)) [
    | inr e ↦ ap (set_text own b) (set_text-foreign own a h e)
    | inl e ↦
        let (t, p) = colon e in
        ap (set_text own b) (set_text-owned own a h e)
        ∙ set_text-owned own b (with_text (replace_text h.text a) h) e
        ∙ ap (λ text. with_text text h) (replace_text_last h.text a b t p)
        ∙ sym (set_text-owned own b h e)
  ]

  set_text_last :
      (a b : String) (hs : List HomeworkRow)
      → ((h : HomeworkRow)
          → Among h hs
          → own h ≡ true
          → (t : String) × (left_of_colon h.text ≡ some t))
      → map (set_text own b) (map (set_text own a) hs) ≡ map (set_text own b) hs
  set_text_last a b [] colon = refl
  set_text_last a b (h ∷ hs) colon = λ i.
      set_text-set_text a b h (colon h (inl refl)) i
      ∷ set_text_last a b hs (λ x m. colon x (inr m)) i

  abbrev pub updated : String → Db
  updated text = record db { homeworks = map (set_text own (clean_text text)) db.homeworks }

  abbrev pub verdict : String → Bool → Result Error (Unit {0})
  verdict operation true = ok tt
  verdict operation false = err (forbidden operation id)

  pub update-calm :
      (text : String)
      → update u id text (calm db)
        ≡ (verdict "Update homework" (any own db.homeworks), calm (updated text))
  unfolding update exec
  update-calm text = elim (Bool-cases (any own db.homeworks)) [ inl e ↦ rw e | inr e ↦ rw e ]

-- Of two updates of a homework by a teacher the second has the result and the effect that it would
-- have alone, if the texts of the rows that they change have a colon. No statement fails.
pub update-update :
    (u id : ℤ) (db : Db) (a b : String)
    → ((h : HomeworkRow)
        → Among h db.homeworks
        → is_owned u id db h ≡ true
        → (t : String) × (left_of_colon h.text ≡ some t))
    → update u id b (update u id a (calm db)).1 ≡ update u id b (calm db)
update-update u id db a b colon =
    ap (λ r. update u id b r.1) (update-calm u id db a)
    ∙ update-calm u id (updated u id db a) b
    ∙ (λ i. (
      verdict u id db "Update homework" (any-set_text u id db (clean_text a) db.homeworks i),
      calm (record db {
        homeworks = set_text_last u id db (clean_text a) (clean_text b) db.homeworks colon i;
      }),
    ))
    ∙ sym (update-calm u id db b)
