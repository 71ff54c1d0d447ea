-- ===== src/Prelude/Lists.antt =====
-- Lists with native lengths, membership, and predicates by recursion.
use Prim.Native.Nat.{ℕ, suc, ◌+◌}
use mathlib.Core.Path.{◌≡◌}
use mathlib.Core.Logic.{ite, ◌⊎◌, inl, inr}
use mathlib.Core.Bool.{Bool, true, false, not, ◌&&◌}
use mathlib.Core.List.{List, [], ◌∷◌, ◌++◌, map}
use native.Mathlib.Omega.{arith}
use dayjaview.Prelude.Tests.{if◌then◌else◌}

module _ {ℓ} {A : Type ℓ} where
  abbrev pub length : List A → ℕ
  length [] = 0
  length (x ∷ xs) = suc (length xs)

  pub length-append : (xs ys : List A) → length (xs ++ ys) ≡ length xs + length ys
  length-append [] ys = omega arith
  length-append (x ∷ xs) ys = omega (arith, length-append xs ys)

abbrev pub All {ℓ κ} : {A : Type ℓ} → (A → Type κ) → List A → Type κ
All P [] = Unit
All P (x ∷ xs) = P x × All P xs

pub All-append {ℓ κ} :
    {A : Type ℓ} (P : A → Type κ) (xs ys : List A) → All P xs → All P ys → All P (xs ++ ys)
All-append P [] ys hx hy = hy
All-append P (x ∷ xs) ys hx hy = (hx.0, All-append P xs ys hx.1 hy)

-- `x in xs`
unfoldable pub is_in {ℓ} : {A : Type ℓ} → Discrete A → A → List A → Bool
is_in dec x [] = false
is_in dec x (y ∷ ys) = ite (dec x y) true (is_in dec x ys)

-- `dict.fromkeys(xs)`: each element where it first stands, and, without the order, `set(xs)`
unfoldable pub without {ℓ} : {A : Type ℓ} → Discrete A → A → List A → List A
without dec x [] = []
without dec x (y ∷ ys) = let rest = without dec x ys in ite (dec x y) rest (y ∷ rest)

unfoldable pub unique {ℓ} : {A : Type ℓ} → Discrete A → List A → List A
unfolding without
unique dec [] = []
unique dec (x ∷ xs) = x ∷ without dec x (unique dec xs)

-- `len(xs) == len(set(xs))`
unfoldable pub all_distinct {ℓ} : {A : Type ℓ} → Discrete A → List A → Bool
unfolding is_in
all_distinct dec [] = true
all_distinct dec (x ∷ xs) = not (is_in dec x xs) && all_distinct dec xs

pub All-imp {ℓ κ μ} :
    {A : Type ℓ} {P : A → Type κ} {Q : A → Type μ} (xs : List A)
    → ((x : A) → P x → Q x)
    → All P xs
    → All Q xs
All-imp [] f h = tt
All-imp (x ∷ xs) f h = (f x h.0, All-imp xs f h.1)

-- `list.sort`, which is stable, by a test that the first of two elements may stand first.
module _ {ℓ} {A : Type ℓ} (first : A → A → Bool) where
  unfoldable pub insert_by : A → List A → List A
  insert_by a [] = a ∷ []
  insert_by a (x ∷ xs) = let rest = insert_by a xs in if first a x then a ∷ x ∷ xs else x ∷ rest

  unfoldable pub sort_by : List A → List A
  unfolding insert_by
  sort_by [] = []
  sort_by (x ∷ xs) = insert_by x (sort_by xs)

  pub insert_by-All :
      (P : A → Type 0) (a : A) (xs : List A) → P a → All P xs → All P (insert_by a xs)
  unfolding insert_by
  insert_by-All P a [] h hs = (h, tt)
  insert_by-All P a (x ∷ xs) h hs =
      elim (first a x) as (λ b. All P (if b then a ∷ x ∷ xs else x ∷ insert_by a xs)) [
        | true ↦ (h, hs)
        | false ↦ (hs.0, insert_by-All P a xs h hs.1)
      ]

  pub sort_by-All : (P : A → Type 0) (xs : List A) → All P xs → All P (sort_by xs)
  unfolding sort_by
  sort_by-All P [] h = tt
  sort_by-All P (x ∷ xs) h = insert_by-All P x (sort_by xs) h.0 (sort_by-All P xs h.1)

-- Some element has the property.
abbrev pub Any {ℓ} : {A : Type ℓ} → (A → Type 0) → List A → Type 0
Any P [] = ⊥
Any P (x ∷ xs) = P x ⊎ Any P xs

module _ {ℓ} {A : Type ℓ} (first : A → A → Bool) (P : A → Type 0) where
  insert_by-Any : (a : A) (xs : List A) → Any P (a ∷ xs) → Any P (insert_by first a xs)
  unfolding insert_by
  insert_by-Any a [] h = h
  insert_by-Any a (x ∷ xs) h =
      elim (first a x) as (λ b. Any P (if b then a ∷ x ∷ xs else x ∷ insert_by first a xs)) [
        | true ↦ h
        | false ↦ elim h [
          | inl at ↦ inr (insert_by-Any a xs (inl at))
          | inr (inl head) ↦ inl head
          | inr (inr later) ↦ inr (insert_by-Any a xs (inr later))
        ]
      ]

  pub sort_by-Any : (xs : List A) → Any P xs → Any P (sort_by first xs)
  unfolding sort_by
  sort_by-Any [] h = h
  sort_by-Any (x ∷ xs) (inl at) = insert_by-Any x (sort_by first xs) (inl at)
  sort_by-Any (x ∷ xs) (inr later) = insert_by-Any x (sort_by first xs) (inr (sort_by-Any xs later))

pub Any-map {ℓ κ} :
    {A : Type ℓ} {B : Type κ} (P : B → Type 0) (f : A → B) (xs : List A)
    → Any (λ x. P (f x)) xs
    → Any P (map f xs)
Any-map P f [] h = h
Any-map P f (x ∷ xs) (inl at) = inl at
Any-map P f (x ∷ xs) (inr later) = inr (Any-map P f xs later)
