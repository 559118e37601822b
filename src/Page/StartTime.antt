-- ===== src/Page/StartTime.antt =====
-- A start time that is found on a page can be read as a clock time.
use Prim.Native.Char.{Char}
use uban_z.Prelude.{
  ℕ, String, Bool, true, false, none, some, ◌≡◌, refl, ◌⊎◌, inl, inr, arith, Bool-cases,
  Option-cases, ap, sym, ◌∙◌, subst,
}
use uban_z.Parser.Times
use uban_z.Parser.Times.{is_digit, find_clock, match_clock, first_some, two_digits, digit_value}
use uban_z.Page.{
  match_minutes, match_two, match_time, find_time, extract_start_time, prefixed, is_word,
}

-- The text that a match yields.
pub data IsClock : String → Type 0 where
  short :
      (a d e : Char)
      → is_digit a ≡ true
      → is_digit d ≡ true
      → is_digit e ≡ true
      → IsClock (String.◌∷◌ a (String.◌∷◌ ":" (String.◌∷◌ d (String.◌∷◌ e String.[]))))
  long :
      (a b d e : Char)
      → is_digit a ≡ true
      → is_digit b ≡ true
      → is_digit d ≡ true
      → is_digit e ≡ true
      → IsClock
          (String.◌∷◌ a (String.◌∷◌ b (String.◌∷◌ ":" (String.◌∷◌ d (String.◌∷◌ e String.[])))))

minutes_lem :
    (s t : String)
    → match_minutes s ≡ some t
    → (d : Char) × (e : Char) × (is_digit d ≡ true)
      × (is_digit e ≡ true)
      × (t ≡ String.◌∷◌ ":" (String.◌∷◌ d (String.◌∷◌ e String.[])))
unfolding match_minutes
minutes_lem String.[] t h = cc
minutes_lem (String.◌∷◌ c String.[]) t h = cc
minutes_lem (String.◌∷◌ c (String.◌∷◌ d String.[])) t h = cc
minutes_lem (String.◌∷◌ c (String.◌∷◌ d (String.◌∷◌ e s))) t h =
    (d, e, ground arith, ground arith, ground arith)

after_one :
    (a : Char) (s t : String)
    → is_digit a ≡ true
    → prefixed a (match_minutes s) ≡ some t
    → IsClock t
after_one a s t p h = elim (Option-cases (match_minutes s)) [
  | inl e ↦ absurd (let q : none ≡ some t = rw e at h in cc)
  | inr (m, e) ↦
      let (d, k, pd, pk, q) = minutes_lem s m e in
      let whole : String.◌∷◌ a m ≡ t = ground arith in
      subst IsClock (ap (λ r. String.◌∷◌ a r) (sym q) ∙ whole) (short a d k p pd pk)
]

after_two : (a : Char) (s t : String) → is_digit a ≡ true → match_two a s ≡ some t → IsClock t
unfolding match_two
after_two a String.[] t p h = cc
after_two a (String.◌∷◌ b s) t p h = elim (Bool-cases (is_digit b)) [
  | inr e ↦ absurd (let q : none ≡ some t = rw e at h in cc)
  | inl e ↦ elim (Option-cases (match_minutes s)) [
    | inl f ↦ absurd (ground arith)
    | inr (m, f) ↦
        let (d, k, pd, pk, q) = minutes_lem s m f in
        let whole : String.◌∷◌ a (String.◌∷◌ b m) ≡ t = ground arith in
        subst IsClock (ap (λ r. String.◌∷◌ a (String.◌∷◌ b r)) (sym q) ∙ whole)
          (long a b d k p e pd pk)
  ]
]

match_time-IsClock : (a : Char) (s t : String) → match_time a s ≡ some t → IsClock t
unfolding match_time
match_time-IsClock a s t h = elim (Bool-cases (is_digit a)) [
  | inr e ↦ absurd (let q : none ≡ some t = rw e at h in cc)
  | inl e ↦ elim (Option-cases (match_two a s)) [
    | inl f ↦ after_one a s t e (ground arith)
    | inr (m, f) ↦ after_two a s t e (ground arith)
  ]
]

find_time-IsClock :
    (in_word : Bool) (s : String) → (find_time in_word s ≡ "") ⊎ IsClock (find_time in_word s)
unfolding find_time
find_time-IsClock in_word String.[] = inl refl
find_time-IsClock true (String.◌∷◌ c s) = find_time-IsClock (is_word c) s
find_time-IsClock false (String.◌∷◌ c s) = elim (Option-cases (match_time c s)) [
  | inl e ↦ rw e (find_time-IsClock (is_word c) s)
  | inr (t, e) ↦ rw e (inr (match_time-IsClock c s t e))
]

pub extract_start_time-IsClock :
    (text : String) → (extract_start_time text ≡ "") ⊎ IsClock (extract_start_time text)
unfolding extract_start_time
extract_start_time-IsClock text = find_time-IsClock false text

pub find_clock-IsClock : (t : String) → IsClock t → (clock : ℕ × ℕ) × (find_clock t ≡ some clock)
unfolding find_clock match_clock Times.match_two Times.match_minutes
find_clock-IsClock _ (short a d e p q r) = ((digit_value a, two_digits d e), rw p (rw q (rw r)))
find_clock-IsClock _ (long a b d e p q r s) =
    ((two_digits a b, two_digits d e), rw p (rw q (rw r (rw s))))
