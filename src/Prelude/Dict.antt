-- ===== src/Prelude/Dict.antt =====
-- Python's `dict`: an association list in insertion order, over keys with a decided equality.
use mathlib.Core.Path.{◌≡◌, refl, sym, subst, ◌∙◌}
use mathlib.Core.Logic.{ite, ◌≢◌}
use mathlib.Core.List.{List, [], ◌∷◌}
use mathlib.Core.Bool.{Bool, true, false}
use dayjaview.Prelude.Tests.{if◌then◌else◌}
use mathlib.Core.Option.{Option, none, some}
use native.Mathlib.Omega.{arith}
use dayjaview.Prelude.Lists.{All, All-imp}

abbrev pub Dict {ℓ κ} : Type ℓ → Type κ → Type (ℓ ⊔ κ)
Dict K V = List (K × V)

module _ {ℓ} {K V : Type ℓ} (dec : Discrete K) where
  -- `d.get(k)`
  unfoldable pub get : K → Dict K V → Option V
  get k [] = none
  get k ((j, v) ∷ d) = ite (dec j k) (some v) (get k d)

  -- `d[k] = v`: a present key keeps its place
  unfoldable pub put : K → V → Dict K V → Dict K V
  put k v [] = (k, v) ∷ []
  put k v ((j, w) ∷ d) = ite (dec j k) ((j, v) ∷ d) ((j, w) ∷ put k v d)

  pub get-put_self : (k : K) (v : V) (d : Dict K V) → get k (put k v d) ≡ some v
  unfolding get put
  get-put_self k v [] = ground arith
  get-put_self k v ((i, w) ∷ d) = ground (arith, get-put_self k v d)

  pub get-put_ne : (k j : K) (v : V) (d : Dict K V) → k ≢ j → get j (put k v d) ≡ get j d
  unfolding get put
  get-put_ne k j v [] h = ground arith
  get-put_ne k j v ((i, w) ∷ d) h = ground (arith, get-put_ne k j v d)

  pub get-put :
      (k j : K) (v : V) (d : Dict K V) → get j (put k v d) ≡ ite (dec k j) (some v) (get j d)
  get-put k j v d = ground (arith, get-put_self k v d, get-put_ne k j v d)

module _ {ℓ} {K V : Type ℓ} (dec : Discrete K) where
  -- `d.pop(k, None)`
  unfoldable pub remove : K → Dict K V → Dict K V
  remove k [] = []
  remove k ((j, w) ∷ d) = let rest = remove k d in ite (dec j k) rest ((j, w) ∷ rest)

  pub get-remove :
      (k j : K) (d : Dict K V) → get dec j (remove k d) ≡ ite (dec k j) none (get dec j d)
  unfolding get remove
  get-remove k j [] = ground arith
  get-remove k j ((i, w) ∷ d) = ground (arith, get-remove k j d)

-- `{k: v for k, v in d.items() if test(v)}`
unfoldable pub keep {ℓ} : {K V : Type ℓ} → (V → Bool) → Dict K V → Dict K V
keep test [] = []
keep test ((k, v) ∷ d) = let rest = keep test d in if test v then (k, v) ∷ rest else rest

module _ {ℓ} {K V : Type ℓ} (dec : Discrete K) (test : V → Bool) where
  keep-none : (j : K) (d : Dict K V) → get dec j d ≡ none → get dec j (keep test d) ≡ none
  unfolding get keep
  keep-none j [] h = refl
  keep-none j ((i, w) ∷ d) h = ground (arith, keep-none j d)

pub get-empty {ℓ} : {K V : Type ℓ} (dec : Discrete K) (k : K) → get {V = V} dec k [] ≡ none
unfolding get
get-empty dec k = refl

pub ruleset dict_laws = (get-empty, get-put)

-- A `dict` has each key once.
abbrev pub Distinct {ℓ} : {K V : Type ℓ} → Discrete K → Dict K V → Type ℓ
Distinct dec [] = Unit
Distinct dec ((k, v) ∷ d) = (get dec k d ≡ none) × Distinct dec d

module _ {ℓ} {K V : Type ℓ} (dec : Discrete K) where
  pub put-Distinct : (k : K) (v : V) (d : Dict K V) → Distinct dec d → Distinct dec (put dec k v d)
  unfolding get put
  put-Distinct k v [] h = (refl, tt)
  put-Distinct k v ((j, w) ∷ d) h =
      elim (dec j k) as (λ x. Distinct dec (ite x ((j, v) ∷ d) ((j, w) ∷ put dec k v d))) [
        | yes same ↦ h
        | no other ↦ (get-put_ne dec k j v d (λ q. other (sym q)) ∙ h.0, put-Distinct k v d h.1)
      ]

  -- Every entry is what its key is looked up to.
  pub All-get : (d : Dict K V) → Distinct dec d → All (λ e. get dec e.0 d ≡ some e.1) d
  unfolding get
  All-get [] h = tt
  All-get ((k, v) ∷ d) h = (ground arith, All-imp d (λ e p. ground arith) (All-get d h.1))

  pub put-All {κ} :
      (P : K × V → Type κ) (k : K) (v : V) (d : Dict K V)
      → P (k, v)
      → All P d
      → All P (put dec k v d)
  unfolding put
  put-All P k v [] h hs = (h, tt)
  put-All P k v ((j, w) ∷ d) h hs =
      elim (dec j k) as (λ x. All P (ite x ((j, v) ∷ d) ((j, w) ∷ put dec k v d))) [
        | yes same ↦ (subst (λ i. P (i, v)) (sym same) h, hs.1)
        | no other ↦ (hs.0, put-All P k v d h hs.1)
      ]

module _ {ℓ} {K V : Type ℓ} (dec : Discrete K) (test : V → Bool) where
  -- The value, if it passes the test.
  abbrev pub filtered : Option V → Option V
  filtered none = none
  filtered (some v) = if test v then some v else none

  pub get-keep :
      (j : K) (d : Dict K V) → Distinct dec d → get dec j (keep test d) ≡ filtered (get dec j d)
  unfolding get keep
  get-keep j [] h = refl
  get-keep j ((i, w) ∷ d) h = ground (arith, get-keep j d h.1, keep-none dec test j d, h.0)

  pub keep-Distinct : (d : Dict K V) → Distinct dec d → Distinct dec (keep test d)
  unfolding keep
  keep-Distinct [] h = tt
  keep-Distinct ((i, w) ∷ d) h =
      elim (test w) as (λ b. Distinct dec (if b then (i, w) ∷ keep test d else keep test d)) [
        | true ↦ (keep-none dec test i d h.0, keep-Distinct d h.1)
        | false ↦ keep-Distinct d h.1
      ]
