-- ===== src/Prelude/Text/Trim.antt =====
-- Trimming a text twice is trimming it once.
use Prim.Native.Char.{Char, code}
use Prim.Native.String.{String, [], ◌∷◌}
use mathlib.Core.Path.{◌≡◌, refl, ◌∙◌, ap}
use mathlib.Core.Logic.{inl, inr}
use text.Mathlib.TextLemmas.{nil≢cons, cons-eq-cons}
use uban_z.Prelude.Tests.{Bool-cases}
use uban_z.Prelude.Text.{is_space, trim_left, trim_right, put_trimmed, trim_space}

trim_left_idem : (s : String) → trim_left (trim_left s) ≡ trim_left s
unfolding trim_left
trim_left_idem [] = refl
trim_left_idem (c ∷ s) = elim (Bool-cases (is_space (code c))) [
  | inl e ↦ rw e (trim_left_idem s)
  | inr e ↦ rw e (rw e)
]

put_trimmed_idem :
    (c : Char) (t : String) → trim_right t ≡ t → trim_right (put_trimmed c t) ≡ put_trimmed c t
unfolding trim_right
put_trimmed_idem c [] h = elim (Bool-cases (is_space (code c))) [
  | inl e ↦ rw e
  | inr e ↦ rw e (rw e)
]
put_trimmed_idem c (d ∷ s) h = rw h

trim_right_idem : (s : String) → trim_right (trim_right s) ≡ trim_right s
unfolding trim_right
trim_right_idem [] = refl
trim_right_idem (c ∷ s) = put_trimmed_idem c (trim_right s) (trim_right_idem s)

put_trimmed-eq-cons : (c : Char) (t s : String) → put_trimmed c t ≡ c ∷ s → t ≡ s
put_trimmed-eq-cons c [] s h = elim (Bool-cases (is_space (code c))) [
  | inl e ↦ absurd (nil≢cons (rw e at h))
  | inr e ↦ (cons-eq-cons.0 (rw e at h)).1
]
put_trimmed-eq-cons c (d ∷ t) s h = (cons-eq-cons.0 h).1

trim_right-trim_left : (s : String) → trim_right s ≡ s → trim_right (trim_left s) ≡ trim_left s
unfolding trim_left trim_right
trim_right-trim_left [] h = refl
trim_right-trim_left (c ∷ s) h = elim (Bool-cases (is_space (code c))) [
  | inl e ↦ rw e (trim_right-trim_left s (put_trimmed-eq-cons c (trim_right s) s h))
  | inr e ↦ rw e h
]

-- A trimmed text has no space at either end, so that trimming it again changes nothing.
pub trim_space_idem : (s : String) → trim_space (trim_space s) ≡ trim_space s
unfolding trim_space
trim_space_idem s =
    ap trim_left (trim_right-trim_left (trim_right s) (trim_right_idem s))
    ∙ trim_left_idem (trim_right s)
