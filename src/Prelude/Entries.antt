-- ===== src/Prelude/Entries.antt =====
-- The entries of a `dict` in another order, and a `dict` that is filled from a list of its values.
use mathlib.Core.Path.{◌≡◌, refl, sym, ap, subst, ◌∙◌}
use mathlib.Core.Logic.{ite, ◌≢◌}
use mathlib.Core.Bool.{Bool, true, false}
use mathlib.Core.List.{List, [], ◌∷◌, ◌++◌, map}
use mathlib.Core.Option.{none, some}
use native.Mathlib.Omega.{arith}
use dayjaview.Prelude.Tests.{if◌then◌else◌, is_none}
use dayjaview.Prelude.Lists.{All, insert_by, sort_by}
use dayjaview.Prelude.Dict.{Dict, get, put, Distinct}
use dayjaview.Prelude.Exec.{Result, ok, raised, Exception}

-- `tuple(d[key] for key in sorted(d))`, by a test that the first of two keys may stand first.
module _ {K V : Type 0} (first : K → K → Bool) where
  abbrev pub entry_first : K × V → K × V → Bool
  entry_first a b = first a.0 b.0

  abbrev pub sorted_entries : Dict K V → Dict K V
  sorted_entries = sort_by entry_first

  abbrev pub sorted_values : Dict K V → List V
  sorted_values d = map (λ e. e.1) (sorted_entries d)

  module _ (dec : Discrete K) where
    get-insert_by :
        (k j : K) (v : V) (d : Dict K V)
        → get dec j d ≡ none
        → get dec k (insert_by entry_first (j, v) d) ≡ ite (dec j k) (some v) (get dec k d)
    unfolding get insert_by
    get-insert_by k j v [] h = refl
    get-insert_by k j v ((i, w) ∷ d) h = ground (arith, get-insert_by k j v d)

    -- Sorting the entries of a `dict` changes no lookup.
    pub get-sorted_entries :
        (k : K) (d : Dict K V) → Distinct dec d → get dec k (sorted_entries d) ≡ get dec k d
    unfolding get sort_by
    get-sorted_entries k [] h = refl
    get-sorted_entries k ((j, v) ∷ d) h =
        get-insert_by k j v (sorted_entries d) (get-sorted_entries j d h.1 ∙ h.0)
        ∙ ap (λ o. ite (dec j k) (some v) o) (get-sorted_entries k d h.1)

    insert_by-Distinct :
        (j : K) (v : V) (d : Dict K V)
        → get dec j d ≡ none
        → Distinct dec d
        → Distinct dec (insert_by entry_first (j, v) d)
    unfolding get insert_by
    insert_by-Distinct j v [] h hs = (refl, tt)
    insert_by-Distinct j v ((i, w) ∷ d) h hs =
        elim (first j i)
          as (λ b.
            Distinct dec
              (if b then (j, v) ∷ (i, w) ∷ d else (i, w) ∷ insert_by entry_first (j, v) d)) [
                | true ↦ (h, hs)
                | false ↦ (
                  ground (arith, hs.0, get-insert_by i j v d, h),
                  insert_by-Distinct j v d (ground (arith, h)) hs.1,
                )
              ]

    pub sorted_entries-Distinct : (d : Dict K V) → Distinct dec d → Distinct dec (sorted_entries d)
    unfolding sort_by
    sorted_entries-Distinct [] h = tt
    sorted_entries-Distinct ((j, v) ∷ d) h =
        insert_by-Distinct j v (sorted_entries d) (get-sorted_entries j d h.1 ∙ h.0)
          (sorted_entries-Distinct d h.1)

module _ {K V : Type 0} (dec : Discrete K) where
  -- `dict(pairs)`: a later pair replaces an earlier one of its key
  unfoldable pub dict_of : List (K × V) → Dict K V → Dict K V
  dict_of [] d = d
  dict_of ((k, v) ∷ pairs) d = dict_of pairs (put dec k v d)

  put_new : (k : K) (v : V) (d : Dict K V) → get dec k d ≡ none → put dec k v d ≡ d ++ ((k, v) ∷ [])
  unfolding get put
  put_new k v [] h = refl
  put_new k v ((j, w) ∷ d) h = ground (arith, put_new k v d)

  append_one : (d : Dict K V) (x : K × V) (r : Dict K V) → (d ++ (x ∷ [])) ++ r ≡ d ++ (x ∷ r)
  append_one [] x r = refl
  append_one (y ∷ d) x r = ap (λ l. y ∷ l) (append_one d x r)

  get-append_none : (k : K) (d r : Dict K V) → get dec k (d ++ r) ≡ none → get dec k d ≡ none
  unfolding get
  get-append_none k [] r h = refl
  get-append_none k ((j, w) ∷ d) r h = ground (arith, get-append_none k d r)

  Distinct-append :
      (k : K) (v : V) (d r : Dict K V) → Distinct dec (d ++ ((k, v) ∷ r)) → get dec k d ≡ none
  unfolding get
  Distinct-append k v [] r h = refl
  Distinct-append k v ((j, w) ∷ d) r h =
      ground (arith, Distinct-append k v d r h.1, get_middle d h.0)
    where
      get_middle : (d : Dict K V) → get dec j (d ++ ((k, v) ∷ r)) ≡ none → j ≢ k
      get_middle [] q = ground arith
      get_middle ((i, u) ∷ d) q = get_middle d (ground arith)

  append_nil : (d : Dict K V) → d ++ [] ≡ d
  append_nil [] = refl
  append_nil (x ∷ d) = ap (λ l. x ∷ l) (append_nil d)

  dict_of_from : (d r : Dict K V) → Distinct dec (d ++ r) → dict_of r d ≡ d ++ r
  unfolding dict_of
  dict_of_from d [] h = sym (append_nil d)
  dict_of_from d ((k, v) ∷ r) h =
      let same = append_one d (k, v) r in
      rw (put_new k v d (Distinct-append k v d r h))
        (dict_of_from (d ++ ((k, v) ∷ [])) r (subst (λ l. Distinct dec l) (sym same) h) ∙ same)

  -- Pairs with distinct keys are the entries of the `dict` they make.
  pub dict_of_lem : (r : Dict K V) → Distinct dec r → dict_of r [] ≡ r
  dict_of_lem r h = dict_of_from [] r h

-- A loop that stores each value under its own key, and raises on a key that is there.
module _ {K V : Type 0} (dec : Discrete K) (key_of : V → K) (e : Exception) where
  unfoldable pub load : List V → Dict K V → Result (Dict K V)
  load [] d = ok d
  load (v ∷ vs) d =
      let rest = load vs (put dec (key_of v) v d) in
      if is_none (get dec (key_of v) d) then rest else raised e

  load_from :
      (d r : Dict K V)
      → Distinct dec (d ++ r)
      → All (λ x. key_of x.1 ≡ x.0) r
      → load (map (λ x. x.1) r) d ≡ ok (d ++ r)
  unfolding load
  load_from d [] h keyed = ap ok (sym (append_nil dec d))
  load_from d ((k, v) ∷ r) h keyed =
      let new = Distinct-append dec k v d r h in
      let same = append_one dec d (k, v) r in
      let rest =
        load_from (d ++ ((k, v) ∷ [])) r (subst (λ l. Distinct dec l) (sym same) h) keyed.1 in
      rw (keyed.0, new, put_new dec k v d new) (rest ∙ ap ok same)

  -- Values that stand under their own distinct keys are loaded into just their entries.
  pub load_lem :
      (r : Dict K V)
      → Distinct dec r
      → All (λ x. key_of x.1 ≡ x.0) r
      → load (map (λ x. x.1) r) [] ≡ ok r
  load_lem r h keyed = load_from [] r h keyed
