-- ===== src/Prelude/State.antt =====
-- Results with an error value, and computations that also carry a state. A failed call keeps the
-- state that it reached.
use mathlib.Core.Path.{◌≡◌, refl}
use mathlib.Core.Logic.{◌⊎◌, inl, inr}
use mathlib.Core.Bool.{Bool, true, false}

pub data Result (E A : Type 0) : Type 0 where
  ok : A → Result E A
  err : E → Result E A

abbrev pub M : Type 0 → Type 0 → Type 0 → Type 0
M S E A = S → Result E A × S

module _ {S E : Type 0} where
  abbrev pub then_run : {A B : Type 0} → (A → M S E B) → Result E A → M S E B
  then_run f (ok a) s = f a s
  then_run f (err e) s = (err e, s)

  infixl 5 ◌>>=◌ ◌>>◌
  abbrev pub ◌>>=◌ : {A B : Type 0} → M S E A → (A → M S E B) → M S E B
  ◌>>=◌ m f s = then_run f (m s).0 (m s).1

  abbrev pub ◌>>◌ : {B : Type 0} → M S E (Unit {0}) → M S E B → M S E B
  m >> k = m >>= λ _. k

  abbrev pub pure : {A : Type 0} → A → M S E A
  pure a s = (ok a, s)

  abbrev pub fail : {A : Type 0} → E → M S E A
  fail e s = (err e, s)

  -- A result that no state is needed for.
  abbrev pub lift : {A : Type 0} → Result E A → M S E A
  lift r s = (r, s)

  -- `if !test { return e }`.
  abbrev pub require : Bool → E → M S E (Unit {0})
  require true e s = (ok tt, s)
  require false e s = (err e, s)

pub Result-cases :
    {E A : Type 0} (r : Result E A) → ((a : A) × (r ≡ ok a)) ⊎ ((e : E) × (r ≡ err e))
Result-cases (ok a) = inl (a, refl)
Result-cases (err e) = inr (e, refl)
