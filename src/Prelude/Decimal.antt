-- ===== src/Prelude/Decimal.antt =====
-- Go's `strconv.Itoa` and `strconv.Atoi`, for an `int` of 64 bits. The largest of them has 19
-- digits, so twenty rounds are enough.
use Prim.Native.Nat.{ℕ, zero, suc, ◌+◌, ◌-◌, ◌*◌, ◌/◌, ◌%◌, ◌^◌, ◌≤◌, ◌<◌}
use Prim.Native.Char.{Char, code}
use Prim.Native.String.{String, [], ◌∷◌}
use mathlib.Core.Path.{◌≡◌, refl, ap, subst, ◌∙◌}
use mathlib.Core.Bool.{◌&&◌}
use mathlib.Core.Logic.{◌≢◌, inl, inr}
use mathlib.Core.Option.{Option, none, some}
use native.Mathlib.Omega.{arith}
use uban_z.Prelude.Tests.{Bool-cases, eqb, leb, ltb, if◌then◌else◌}
use uban_z.Prelude.Int.{ℤ, pos, negsuc}

abbrev nth_char : String → ℕ → Char
nth_char [] n = "0"
nth_char (c ∷ s) zero = c
nth_char (c ∷ s) (suc n) = nth_char s n

abbrev digit_char : ℕ → Char
digit_char = nth_char "0123456789"

-- The digits of a number in front of a text.
unfoldable pub digits : ℕ → ℕ → String → String
digits zero n out = out
digits (suc fuel) n out =
    let more = digits fuel (n / 10) (digit_char (n % 10) ∷ out) in
    if ltb n 10 then digit_char n ∷ out else more

unfoldable pub itoa : ℤ → String
unfolding digits
itoa (pos n) = digits 20 n []
itoa (negsuc n) = "-" ∷ digits 20 (suc n) []

unfoldable pub scan : String → ℕ → Option ℕ
scan [] n = some n
scan (c ∷ s) n =
    let rest = scan s (n * 10 + (code c - b'0')) in
    if leb b'0' (code c) && leb (code c) b'9' then rest else none

abbrev scan_some : String → Option ℕ
scan_some [] = none
scan_some (c ∷ s) = scan (c ∷ s) 0

abbrev positive : Option ℕ → Option ℤ
positive none = none
positive (some n) = if ltb n (2 ^ 63) then some (pos n) else none

abbrev negative : Option ℕ → Option ℤ
negative none = none
negative (some zero) = some (pos 0)
negative (some (suc n)) = if ltb n (2 ^ 63) then some (negsuc n) else none

unfoldable pub atoi : String → Option ℤ
unfolding scan
atoi [] = none
atoi (c ∷ s) =
    if eqb (code c) b'-'
    then negative (scan_some s)
    else if eqb (code c) b'+'
    then positive (scan_some s)
    else positive (scan_some (c ∷ s))

abbrev pub IsInt : ℤ → Type 0
IsInt (pos n) = n < 2 ^ 63
IsInt (negsuc n) = n < 2 ^ 63

code-digit_char : (d : ℕ) → d < 10 → code (digit_char d) ≡ b'0' + d
code-digit_char zero h = refl
code-digit_char (suc zero) h = refl
code-digit_char (suc (suc zero)) h = refl
code-digit_char (suc (suc (suc zero))) h = refl
code-digit_char (suc (suc (suc (suc zero)))) h = refl
code-digit_char (suc (suc (suc (suc (suc zero))))) h = refl
code-digit_char (suc (suc (suc (suc (suc (suc zero)))))) h = refl
code-digit_char (suc (suc (suc (suc (suc (suc (suc zero))))))) h = refl
code-digit_char (suc (suc (suc (suc (suc (suc (suc (suc zero)))))))) h = refl
code-digit_char (suc (suc (suc (suc (suc (suc (suc (suc (suc zero))))))))) h = refl
code-digit_char (suc (suc (suc (suc (suc (suc (suc (suc (suc (suc d)))))))))) h =
    absurd (omega arith)

-- The numbers that so many digits can print.
abbrev limit : ℕ → ℕ
limit zero = 1
limit (suc fuel) = 10 * limit fuel

scan_digit : (d n : ℕ) (out : String) → d < 10 → scan (digit_char d ∷ out) n ≡ scan out (n * 10 + d)
unfolding scan
scan_digit d n out h = ground (arith, code-digit_char d h)

scan-digits : (fuel n : ℕ) (out : String) → n < limit fuel → scan (digits fuel n out) 0 ≡ scan out n
unfolding digits
scan-digits zero n out h = ap (scan out) (omega arith)
scan-digits (suc fuel) n out h = elim (Bool-cases (ltb n 10)) [
  | inl e ↦ rw e (scan_digit n 0 out (ground arith) ∙ ap (scan out) (omega arith))
  | inr e ↦ rw e (
      scan-digits fuel (n / 10) (digit_char (n % 10) ∷ out) (omega arith)
      ∙ scan_digit (n % 10) (n / 10) out (omega arith)
      ∙ ap (scan out) (omega arith))
]

-- The text begins with a digit.
IsDigits : String → Type 0
IsDigits [] = ⊥
IsDigits (c ∷ s) = (b'0' ≤ code c) × (code c ≤ b'9')

digit-IsDigit : (d : ℕ) → d < 10 → (b'0' ≤ code (digit_char d)) × (code (digit_char d) ≤ b'9')
digit-IsDigit d h = (omega (arith, code-digit_char d h), omega (arith, code-digit_char d h))

digits-IsDigits : (fuel n : ℕ) (out : String) → IsDigits out → IsDigits (digits fuel n out)
unfolding digits IsDigits
digits-IsDigits zero n out h = h
digits-IsDigits (suc fuel) n out h = elim (Bool-cases (ltb n 10)) [
  | inl e ↦ rw e (digit-IsDigit n (ground arith))
  | inr e ↦ rw e (
      digits-IsDigits fuel (n / 10) (digit_char (n % 10) ∷ out)
        (digit-IsDigit (n % 10) (omega arith)))
]

atoi_digits : (s : String) → IsDigits s → atoi s ≡ positive (scan s 0)
unfolding atoi IsDigits
atoi_digits [] h = absurd h
atoi_digits (c ∷ s) h = ground arith

atoi_minus : (s : String) → IsDigits s → atoi ("-" ∷ s) ≡ negative (scan s 0)
unfolding atoi IsDigits
atoi_minus [] h = absurd h
atoi_minus (c ∷ s) h = refl

printed-IsDigits : (n : ℕ) → IsDigits (digits 20 n [])
unfolding digits IsDigits
printed-IsDigits n = elim (Bool-cases (ltb n 10)) [
  | inl e ↦ rw e (digit-IsDigit n (ground arith))
  | inr e ↦ rw e (
      digits-IsDigits 19 (n / 10) (digit_char (n % 10) ∷ []) (digit-IsDigit (n % 10) (omega arith)))
]

-- Every `int` is read back from its print.
pub atoi-itoa : (z : ℤ) → IsInt z → atoi (itoa z) ≡ some z
unfolding itoa scan
atoi-itoa (pos n) h =
    rw (atoi_digits (digits 20 n []) (printed-IsDigits n), scan-digits 20 n [] (omega arith))
      (ground arith)
atoi-itoa (negsuc n) h =
    rw
      (
        atoi_minus (digits 20 (suc n) []) (printed-IsDigits (suc n)),
        scan-digits 20 (suc n) [] (omega arith),
      )
      (ground arith)

-- No `int` is printed as the empty text.
pub itoa-nonempty : (z : ℤ) → itoa z ≢ ""
unfolding itoa IsDigits
itoa-nonempty (pos n) e = subst IsDigits e (printed-IsDigits n)
itoa-nonempty (negsuc n) e = cc
