-- ===== src/Prelude/Text.antt =====
-- The functions of Go's `strings` package that the services call, over texts of code points.
-- An index is a position in code points where Go counts bytes; the code slices only at positions
-- that an ASCII character was found at, where both name the same place.
pub mod Trim
use Prim.Native.Nat.{ℕ, zero, suc}
use mathlib.Core.Option.{Option, none, some}
use Prim.Native.Char.{Char, code}
use Prim.Native.String.{String, [], ◌∷◌}
use mathlib.Core.Bool.{Bool, true, false, ◌&&◌, ◌||◌}
use uban_z.Prelude.Tests.{eqb, leb, if◌then◌else◌}

-- `unicode.IsSpace`.
unfoldable pub is_space : ℕ → Bool
is_space c =
    (leb 9 c && leb c 13)
    || (eqb c 32
        || (eqb c 0x85
            || (eqb c 0xa0
                || (eqb c 0x1680
                    || ((leb 0x2000 c && leb c 0x200a)
                        || (eqb c 0x2028
                            || (eqb c 0x2029
                                || (eqb c 0x202f || (eqb c 0x205f || eqb c 0x3000)))))))))

abbrev pub is_empty : String → Bool
is_empty [] = true
is_empty (c ∷ s) = false

unfoldable pub trim_left : String → String
trim_left [] = []
trim_left (c ∷ s) = let rest = trim_left s in if is_space (code c) then rest else c ∷ s

abbrev pub put_trimmed : Char → String → String
put_trimmed c [] = if is_space (code c) then [] else c ∷ []
put_trimmed c (d ∷ s) = c ∷ d ∷ s

-- `strings.TrimRightFunc`: a space stays if something is left behind it.
unfoldable pub trim_right : String → String
trim_right [] = []
trim_right (c ∷ s) = put_trimmed c (trim_right s)

-- `strings.TrimSpace`.
unfoldable pub trim_space : String → String
unfolding trim_left trim_right
trim_space s = trim_left (trim_right s)

abbrev pub length_text : String → ℕ
length_text [] = 0
length_text (c ∷ s) = suc (length_text s)

-- `strings.LastIndex` of one ASCII character; `none` is -1.
unfoldable pub last_index : ℕ → String → Option ℕ
last_index c [] = none
last_index c (d ∷ s) = elim (last_index c s) [
  | some i ↦ some (suc i)
  | none ↦ if eqb (code d) c then some 0 else none
]

-- `s[:n]` and `s[n:]`.
unfoldable pub take_text : ℕ → String → String
take_text zero s = []
take_text (suc n) [] = []
take_text (suc n) (c ∷ s) = c ∷ take_text n s

unfoldable pub drop_text : ℕ → String → String
drop_text zero s = s
drop_text (suc n) [] = []
drop_text (suc n) (c ∷ s) = drop_text n s

-- `strings.HasPrefix`.
unfoldable pub has_prefix : String → String → Bool
has_prefix s [] = true
has_prefix [] (p ∷ ps) = false
has_prefix (c ∷ s) (p ∷ ps) = eqb (code c) (code p) && has_prefix s ps

-- `strings.Contains`, of a text that is not empty.
unfoldable pub contains_text : String → String → Bool
unfolding has_prefix
contains_text [] p = false
contains_text (c ∷ s) p = has_prefix (c ∷ s) p || contains_text s p

-- `strings.HasSuffix` of one character, and `strings.TrimSuffix`.
unfoldable pub ends_with : ℕ → String → Bool
ends_with x [] = false
ends_with x (c ∷ s) = if is_empty s then eqb (code c) x else ends_with x s

unfoldable pub trim_suffix : ℕ → String → String
trim_suffix x [] = []
trim_suffix x (c ∷ s) = if is_empty s && eqb (code c) x then [] else c ∷ trim_suffix x s
