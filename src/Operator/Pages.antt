-- ===== src/Operator/Pages.antt =====
-- `_paginate` of packages/operator/repository.py, and a client that follows its cursors.
use mathlib.Core.Option.{map as map_option}
use dayjaview.Prelude.{
  ℕ, zero, suc, true, false, Option, none, some, List, [], ◌∷◌, ◌++◌, map, String, String-discrete,
  ite, length, ◌+◌, ◌≡◌, ◌≤◌, is_in, all_distinct, ltb, if◌then◌else◌, arith, ap, ◌⊎◌, inl, refl,
  ◌<◌, inr, length-append, ◌∙◌, sym, subst, max,
}
use dayjaview.Prelude.Exec.{Result, ok, raised, and_then, unknown_operator_cursor, out_of_fuel}
use dayjaview.Operator.Models.{OperatorPage}

module _ {A : Type 0} where
  -- `xs[n:]` and `xs[:n]`
  unfoldable pub drop : ℕ → List A → List A
  drop zero xs = xs
  drop (suc n) [] = []
  drop (suc n) (x ∷ xs) = drop n xs

  unfoldable pub take : ℕ → List A → List A
  take zero xs = []
  take (suc n) [] = []
  take (suc n) (x ∷ xs) = x ∷ take n xs

  -- `xs[-1]`, of a list that may be empty
  unfoldable pub last_of : List A → Option A
  last_of [] = none
  last_of (x ∷ xs) = elim xs [ [] ↦ some x | y ∷ ys ↦ last_of xs ]

  module _ (key : A → String) where
    -- `identifiers.index(cursor)`, or none where `cursor not in identifiers`
    unfoldable pub index_of : String → List A → Option ℕ
    unfolding String-discrete
    index_of cursor [] = none
    index_of cursor (x ∷ xs) =
        let rest = index_of cursor xs in
        ite (String-discrete (key x) cursor) (some 0)
          (elim rest [ none ↦ none | some i ↦ some (suc i) ])

    abbrev pub start_of : Option String → List A → Result ℕ
    start_of none ordered = ok 0
    start_of (some cursor) ordered = elim (index_of cursor ordered) [
      | none ↦ raised unknown_operator_cursor
      | some i ↦ ok (i + 1)
    ]

    abbrev pub page_at : List A → ℕ → ℕ → OperatorPage A
    page_at ordered limit start =
        let window = take limit (drop start ordered) in
        let has_more = ltb (start + limit) (length ordered) in
        record {
          items = window;
          next_cursor = if has_more then map_option key (last_of window) else none;
          has_more = has_more;
          limit = limit;
        }

    unfoldable pub paginate : List A → Option String → ℕ → Result (OperatorPage A)
    unfolding take drop last_of index_of
    paginate ordered cursor limit =
        and_then (start_of cursor ordered) (λ start. ok (page_at ordered limit start))

    -- A client that asks for a page and follows its cursor until there is none, with `fuel` requests at
    -- most.
    unfoldable pub collect : List A → ℕ → ℕ → Option String → Result (List A)
    unfolding paginate
    collect ordered limit zero cursor = raised out_of_fuel
    collect ordered limit (suc fuel) cursor = and_then (paginate ordered cursor limit) (λ page.
        let following = collect ordered limit fuel page.next_cursor in
        elim page.next_cursor [
          | none ↦ ok page.items
          | some c ↦ and_then following (λ rest. ok (page.items ++ rest))
        ])

    index_of-append :
        (us : List A) (y : A) (r : List A)
        → all_distinct String-discrete (map key (us ++ (y ∷ r))) ≡ true
        → index_of (key y) (us ++ (y ∷ r)) ≡ some (length us)
    unfolding index_of all_distinct
    index_of-append [] y r h = ground arith
    index_of-append (u ∷ us) y r h =
        ground (arith, index_of-append us y r (ground arith), is_in_middle us)
      where
        is_in_middle :
            (vs : List A) → is_in String-discrete (key y) (map key (vs ++ (y ∷ r))) ≡ true
        is_in_middle [] = ground arith
        is_in_middle (v ∷ vs) = ground (arith, is_in_middle vs)

  drop-append : (us r : List A) → drop (length us) (us ++ r) ≡ r
  unfolding drop
  drop-append [] r = refl
  drop-append (u ∷ us) r = drop-append us r

  last_of-append : (w : List A) (y : A) → last_of (w ++ (y ∷ [])) ≡ some y
  unfolding last_of
  last_of-append [] y = refl
  last_of-append (x ∷ []) y = refl
  last_of-append (x ∷ z ∷ w) y = last_of-append (z ∷ w) y

  append_assoc : (a b c : List A) → (a ++ b) ++ c ≡ a ++ (b ++ c)
  append_assoc [] b c = refl
  append_assoc (x ∷ a) b c = ap (λ l. x ∷ l) (append_assoc a b c)

  -- A window holds all that is left, or ends at an element after which something is left.
  abbrev Windows : ℕ → List A → Type 0
  Windows n xs =
      (length xs ≤ n) × (take n xs ≡ xs)
      ⊎ (w : List A) × (y : A) × (r : List A) × (xs ≡ w ++ (y ∷ r))
        × (take n xs ≡ w ++ (y ∷ []))
        × (n < length xs)

  windows : (n : ℕ) (xs : List A) → Windows (suc n) xs
  unfolding take
  windows n [] = inl (ground arith, refl)
  windows zero (x ∷ []) = inl (ground arith, refl)
  windows zero (x ∷ z ∷ xs) = inr ([], x, z ∷ xs, refl, refl, ground arith)
  windows (suc n) (x ∷ xs) = elim (windows n xs) [
    | inl (short, whole) ↦ inl (omega (arith, short), ap (λ l. x ∷ l) whole)
    | inr (w, y, r, same, window, long) ↦
        inr (x ∷ w, y, r, ap (λ l. x ∷ l) same, ap (λ l. x ∷ l) window, omega (arith, long))
  ]

module _ {A : Type 0} (key : A → String) (ordered : List A) (n : ℕ)
    (distinct : all_distinct String-discrete (map key ordered) ≡ true) where
  -- The page at a start with everything before it read.
  page_at_split :
      (pre rest : List A)
      → ordered ≡ pre ++ rest
      → page_at key ordered (suc n) (length pre) ≡ record {
        items = take (suc n) rest;
        next_cursor =
            if ltb (suc n) (length rest)
            then map_option key (last_of (take (suc n) rest))
            else none;
        has_more = ltb (suc n) (length rest);
        limit = suc n;
      }
  page_at_split pre rest split = rw (split, drop-append pre rest, longer) refl
    where
      longer : ltb (length pre + suc n) (length (pre ++ rest)) ≡ ltb (suc n) (length rest)
      longer = ground (arith, length-append pre rest)

  -- The cursor of a page leads to the position after it.
  next_split :
      (pre rest w r : List A) (y : A)
      → ordered ≡ pre ++ rest
      → rest ≡ w ++ (y ∷ r)
      → ordered ≡ (pre ++ (w ++ (y ∷ []))) ++ r
  next_split pre rest w r y split same =
      split
      ∙ ap (λ l. pre ++ l) (same ∙ sym (append_assoc w (y ∷ []) r))
      ∙ sym (append_assoc pre (w ++ (y ∷ [])) r)

  next_start :
      (pre rest w r : List A) (y : A)
      → ordered ≡ pre ++ rest
      → rest ≡ w ++ (y ∷ r)
      → start_of key (some (key y)) ordered ≡ ok (length (pre ++ (w ++ (y ∷ []))))
  next_start pre rest w r y split same =
      let whole : ordered ≡ (pre ++ w) ++ (y ∷ r) =
        split ∙ ap (λ l. pre ++ l) same ∙ sym (append_assoc pre w (y ∷ r)) in
      let found : index_of key (key y) ordered ≡ some (length (pre ++ w)) =
        subst (λ l. index_of key (key y) l ≡ some (length (pre ++ w))) (sym whole)
          (index_of-append key (pre ++ w) y r
            (subst (λ l. all_distinct String-discrete (map key l) ≡ true) whole distinct)) in
      rw (start_of, found)
        (ap ok (
          omega (
            arith,
            length-append pre w,
            length-append pre (w ++ (y ∷ [])),
            length-append w (y ∷ []),
          )))

  collect-rest :
      (fuel : ℕ) (pre rest : List A) (cursor : Option String)
      → ordered ≡ pre ++ rest
      → start_of key cursor ordered ≡ ok (length pre)
      → length rest ≤ fuel
      → 1 ≤ fuel
      → collect key ordered (suc n) fuel cursor ≡ ok rest
  unfolding collect paginate
  collect-rest zero pre rest cursor split start enough one = absurd (omega (arith, one))
  collect-rest (suc fuel) pre rest cursor split start enough one =
      rw (start, page_at_split pre rest split)
        (elim (windows n rest) [
          | inl (short, whole) ↦
              let ends : ltb (suc n) (length rest) ≡ false = ground (arith, short) in
              rw (ends, whole) refl
          | inr (w, y, r, same, window, long) ↦
              let goes_on : ltb (suc n) (length rest) ≡ true = ground (arith, long) in
              let shorter : length r ≤ fuel =
                omega (arith, enough, ap length same, length-append w (y ∷ r)) in
              let left : 1 ≤ fuel = omega (arith, enough, long) in
              let following =
                collect-rest fuel (pre ++ (w ++ (y ∷ []))) r (some (key y))
                  (next_split pre rest w r y split same) (next_start pre rest w r y split same)
                  shorter left in
              rw (goes_on, window, last_of-append w y, following)
                (ap ok (append_assoc w (y ∷ []) r ∙ sym same))
        ])

-- Of elements with distinct keys and a limit of at least one, a client that starts without a cursor
-- and follows the cursor of each page comes to a page without one, and has been given every element
-- once, in order, within as many requests as there are elements, or within one request if there is
-- none.
pub collect-paginate :
    {A : Type 0} (key : A → String) (ordered : List A) (limit : ℕ)
    → all_distinct String-discrete (map key ordered) ≡ true
    → 1 ≤ limit
    → collect key ordered limit (max 1 (length ordered)) none ≡ ok ordered
collect-paginate key ordered zero distinct positive = absurd (omega (arith, positive))
collect-paginate key ordered (suc n) distinct positive =
    collect-rest key ordered n distinct (max 1 (length ordered)) [] ordered none refl refl
      (omega arith) (omega arith)
