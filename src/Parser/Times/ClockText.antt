-- ===== src/Parser/Times/ClockText.antt =====
-- What `parseClock` accepts and how it reads it.
use Prim.Native.Char.{Char}
use Prim.Native.String.{String, ◌∷◌}
use uban_z.Prelude.{ℕ, ◌<◌, ◌≡◌, true, ok, arith}
use uban_z.Parser.Times.{
  is_digit, is_separator, two_digits, match_clock, match_minutes, match_two, find_clock,
  parse_clock,
}

-- A clock time that is accepted has an hour below 24 and a minute below 60.
pub parse_clock_bounds : (s : String) (h m : ℕ) → parse_clock s ≡ ok (h, m) → (h < 24) × (m < 60)
unfolding parse_clock
parse_clock_bounds s h m e = ground arith

module _ (a b c d e : Char) (rest : String) where
  pub parse_clock-two_digits :
      is_digit a ≡ true
      → is_digit b ≡ true
      → is_separator c ≡ true
      → is_digit d ≡ true
      → is_digit e ≡ true
      → two_digits a b < 24
      → two_digits d e < 60
      → parse_clock (a ∷ b ∷ c ∷ d ∷ e ∷ rest) ≡ ok (two_digits a b, two_digits d e)
  unfolding parse_clock find_clock match_clock match_two match_minutes
  parse_clock-two_digits ha hb hc hd he h m = ground arith
