-- ===== src/Prelude/Members.antt =====
-- What holds of the entries of a list, by their membership.
use mathlib.Core.Path.{◌≡◌, refl, ap}
use mathlib.Core.Logic.{◌⊎◌, inl, inr}
use mathlib.Core.Bool.{Bool, true, false}
use mathlib.Core.Option.{some}
use mathlib.Core.List.{List, [], ◌∷◌, map}
use native.Mathlib.Omega.{arith}
use uban_z.Prelude.Tests.{Bool-cases}
use uban_z.Prelude.Lists.{any, find}

module _ {A : Type 0} where
  abbrev pub Among : A → List A → Type 0
  Among a [] = ⊥
  Among a (x ∷ xs) = (a ≡ x) ⊎ Among a xs

  pub any-eq-true : (p : A → Bool) {a : A} (xs : List A) → Among a xs → p a ≡ true → any p xs ≡ true
  any-eq-true p [] m h = elim m [ ]
  any-eq-true p (x ∷ xs) (inl e) h = rw (← e) (rw h)
  any-eq-true p (x ∷ xs) (inr m) h = ground (arith, any-eq-true p xs m h)

  pub any-eq-false :
      (p : A → Bool) (xs : List A) → ((a : A) → Among a xs → p a ≡ false) → any p xs ≡ false
  any-eq-false p [] h = refl
  any-eq-false p (x ∷ xs) h = rw (h x (inl refl)) (any-eq-false p xs (λ a m. h a (inr m)))

  pub any-witness :
      (p : A → Bool) (xs : List A) → any p xs ≡ true → (a : A) × Among a xs × (p a ≡ true)
  any-witness p [] h = cc
  any-witness p (x ∷ xs) h = elim (Bool-cases (p x)) [
    | inl e ↦ (x, inl refl, e)
    | inr e ↦ let r = any-witness p xs (ground arith) in (r.0, inr r.1, r.2)
  ]

  pub find-eq-some :
      (p : A → Bool) {a : A} (xs : List A) → find p xs ≡ some a → Among a xs × (p a ≡ true)
  find-eq-some p [] h = cc
  find-eq-some p (x ∷ xs) h = elim (Bool-cases (p x)) [
    | inl e ↦ (inl (ground arith), ground arith)
    | inr e ↦ let r = find-eq-some p xs (ground arith) in (inr r.0, r.1)
  ]

  -- The only entry that passes a test is found.
  pub find_only :
      (p : A → Bool) (a : A) (xs : List A)
      → Among a xs
      → p a ≡ true
      → ((b : A) → Among b xs → p b ≡ true → b ≡ a)
      → find p xs ≡ some a
  find_only p a [] m h u = elim m [ ]
  find_only p a (x ∷ xs) (inl e) h u = rw (← e) (rw h)
  find_only p a (x ∷ xs) (inr m) h u = elim (Bool-cases (p x)) [
    | inl e ↦ rw e (ap some (u x (inl refl) e))
    | inr e ↦ rw e (find_only p a xs m h (λ b k. u b (inr k)))
  ]

module _ {A B : Type 0} (f : A → B) where
  pub Among-map : (a : A) (xs : List A) → Among a xs → Among (f a) (map f xs)
  Among-map a [] m = elim m [ ]
  Among-map a (x ∷ xs) (inl e) = inl (ap f e)
  Among-map a (x ∷ xs) (inr m) = inr (Among-map a xs m)

  pub Among-of_map : {b : B} (xs : List A) → Among b (map f xs) → (a : A) × Among a xs × (b ≡ f a)
  Among-of_map [] m = elim m [ ]
  Among-of_map (x ∷ xs) (inl e) = (x, inl refl, e)
  Among-of_map (x ∷ xs) (inr m) = let r = Among-of_map xs m in (r.0, inr r.1, r.2)
