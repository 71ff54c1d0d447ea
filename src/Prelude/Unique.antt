-- ===== src/Prelude/Unique.antt =====
-- How many different elements a list has.
use Prim.Native.Nat.{◌≤◌}
use mathlib.Core.Path.{◌≡◌, refl, sym, ◌∙◌}
use mathlib.Core.Logic.{ite, ◌≢◌}
use mathlib.Core.Bool.{true, false}
use mathlib.Core.List.{List, [], ◌∷◌}
use native.Mathlib.Omega.{arith}
use dayjaview.Prelude.Lists.{length, is_in, unique, without}

module _ {A : Type 0} (dec : Discrete A) where
  is_in-without :
      (x y : A) (zs : List A)
      → is_in dec y (without dec x zs) ≡ ite (dec x y) false (is_in dec y zs)
  unfolding is_in without
  is_in-without x y [] = ground arith
  is_in-without x y (z ∷ zs) = ground (arith, is_in-without x y zs)

  is_in-unique : (y : A) (xs : List A) → is_in dec y (unique dec xs) ≡ is_in dec y xs
  unfolding is_in unique
  is_in-unique y [] = refl
  is_in-unique y (x ∷ xs) = ground (arith, is_in-without x y (unique dec xs), is_in-unique y xs)

  -- Two elements of the list are different.
  abbrev pub TwoDiffer : List A → Type 0
  TwoDiffer xs = (x : A) × (y : A) × (is_in dec x xs ≡ true) × (is_in dec y xs ≡ true) × (x ≢ y)

  pub unique_differ : (xs : List A) → 2 ≤ length (unique dec xs) → TwoDiffer xs
  unfolding unique is_in
  unique_differ [] h = absurd (omega (arith, h))
  unique_differ (x ∷ xs) h = second (without dec x (unique dec xs)) refl
    where
      second : (ys : List A) → without dec x (unique dec xs) ≡ ys → TwoDiffer (x ∷ xs)
      second [] e = absurd (ground (arith, h))
      second (y ∷ ys) e =
          let there : is_in dec y (without dec x (unique dec xs)) ≡ true = ground (arith, e) in
          let both = sym (is_in-without x y (unique dec xs)) ∙ there in
          elim (dec x y) [
            | yes same ↦ absurd (ground arith)
            | no other ↦ (x, y, ground arith, ground (arith, is_in-unique y xs), other)
          ]

  pub differ_unique : (xs : List A) → TwoDiffer xs → 2 ≤ length (unique dec xs)
  unfolding is_in
  differ_unique xs (x, y, hx, hy, differ) =
      at_least (unique dec xs) (is_in-unique x xs ∙ hx) (is_in-unique y xs ∙ hy)
    where
      at_least : (ys : List A) → is_in dec x ys ≡ true → is_in dec y ys ≡ true → 2 ≤ length ys
      at_least [] ix iy = absurd (ground arith)
      at_least (z ∷ []) ix iy = absurd (ground arith)
      at_least (z ∷ w ∷ ys) ix iy = omega arith
