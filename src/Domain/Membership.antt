-- ===== src/Domain/Membership.antt =====
-- `select_membership_snapshot` of packages/domain/models.py: the members of a theme, as far as they
-- were known at the time of a decision.
use Prim.Native.Nat.{compare}
use Prim.Native.String.{compare as compare_text, then as thenby}
use text.Mathlib.Text.{is_le}
use dayjaview.Prelude.{
  ℕ, ◌+◌, ◌<◌, ◌≤◌, ◌≡◌, ◌⊎◌, inl, inr, refl, ap, sym, ◌∙◌, Bool, true, false, not, ◌&&◌, Option,
  none, some, List, [], ◌∷◌, ◌++◌, map, String, String-discrete, arith, ite, leb, ltb, ◌==◌, All,
  sort_by, sort_by-All, all_distinct, is_in, if◌then◌else◌, Bool-cases, Option-cases, subst,
  none-ne-some, some-injective,
}
use dayjaview.Prelude.Exec.{Result, ok, raised, value_error, require}

pub data MembershipRole : Type 0 where
  core related : MembershipRole

pub record ThemeMember : Type 0 where
  pub stock_id : String
  pub role : MembershipRole

abbrev is_empty : String → Bool
is_empty s = ite (String-discrete s "") true false

-- `__post_init__`
unfoldable pub check_member : ThemeMember → Result (Unit {0})
check_member m = require (not (is_empty m.stock_id)) value_error

pub record ThemeMembershipSnapshot : Type 0 where
  pub theme_id : String
  pub version : String
  pub effective_from : ℕ
  pub known_at : ℕ
  pub members : List ThemeMember

abbrev pub stock_ids : ThemeMembershipSnapshot → List String
stock_ids s = map (λ m. m.stock_id) s.members

-- `__post_init__`
unfoldable pub check_snapshot : ThemeMembershipSnapshot → Result (Unit {0})
check_snapshot s =
    require
      (not (is_empty s.theme_id)
        && not (is_empty s.version)
        && all_distinct String-discrete (stock_ids s))
      value_error

unfoldable pub contains : String → ThemeMembershipSnapshot → Bool
contains stock_id s = is_in String-discrete stock_id (stock_ids s)

-- Of two snapshots, by the tuple of `effective_from`, `known_at` and `version`.
unfoldable pub is_earlier : ThemeMembershipSnapshot → ThemeMembershipSnapshot → Bool
is_earlier a b = is_le (
    thenby (compare a.effective_from b.effective_from)
      (thenby (compare a.known_at b.known_at) (compare_text a.version b.version)))

-- How many have the key of the selected one.
unfoldable pub count_key : ThemeMembershipSnapshot → List ThemeMembershipSnapshot → ℕ
count_key x [] = 0
count_key x (s ∷ ss) =
    let rest = count_key x ss in
    if s.effective_from == x.effective_from && s.known_at == x.known_at then rest + 1 else rest

-- `eligible[-1]`
unfoldable pub last : List ThemeMembershipSnapshot → Option ThemeMembershipSnapshot
last [] = none
last (x ∷ []) = some x
last (x ∷ y ∷ ys) = last (y ∷ ys)

module _ (theme_id : String) (market_date decision_at : ℕ) where
  unfoldable pub is_selectable : ThemeMembershipSnapshot → Bool
  is_selectable s =
      ite (String-discrete s.theme_id theme_id) true false
      && leb s.effective_from market_date
      && leb s.known_at decision_at

  unfoldable pub selectable : List ThemeMembershipSnapshot → List ThemeMembershipSnapshot
  selectable [] = []
  selectable (s ∷ ss) = let rest = selectable ss in if is_selectable s then s ∷ rest else rest

  -- What is done with the snapshots that are eligible.
  unfoldable pub choose : List ThemeMembershipSnapshot → Result (Option ThemeMembershipSnapshot)
  unfolding last count_key
  choose eligible = elim (last (sort_by is_earlier eligible)) [
    | none ↦ ok none
    | some selected ↦
        if ltb 1 (count_key selected eligible) then raised value_error else ok (some selected)
  ]

  unfoldable pub select_membership_snapshot :
      List ThemeMembershipSnapshot → Result (Option ThemeMembershipSnapshot)
  unfolding choose selectable
  select_membership_snapshot snapshots = choose (selectable snapshots)

  selectable-append :
      (xs ys : List ThemeMembershipSnapshot)
      → selectable (xs ++ ys) ≡ selectable xs ++ selectable ys
  unfolding selectable
  selectable-append [] ys = refl
  selectable-append (x ∷ xs) ys = ground (arith, selectable-append xs ys)

  late-selectable :
      (late : ThemeMembershipSnapshot) (ys : List ThemeMembershipSnapshot)
      → (market_date < late.effective_from) ⊎ (decision_at < late.known_at)
      → selectable (late ∷ ys) ≡ selectable ys
  unfolding selectable is_selectable
  late-selectable late ys h = ground arith

  -- There is no look-ahead: a snapshot that becomes effective after the market date, or known after
  -- the decision, has no part in the selection, wherever it stands among the others.
  pub select_ignores_later :
      (xs ys : List ThemeMembershipSnapshot) (late : ThemeMembershipSnapshot)
      → (market_date < late.effective_from) ⊎ (decision_at < late.known_at)
      → select_membership_snapshot (xs ++ late ∷ ys) ≡ select_membership_snapshot (xs ++ ys)
  unfolding select_membership_snapshot
  select_ignores_later xs ys late h = ap choose (
      selectable-append xs (late ∷ ys)
      ∙ ap (λ l. selectable xs ++ l) (late-selectable late ys h)
      ∙ sym (selectable-append xs ys))

  last-All :
      (P : ThemeMembershipSnapshot → Type 0) (xs : List ThemeMembershipSnapshot)
      {x : ThemeMembershipSnapshot}
      → All P xs
      → last xs ≡ some x
      → P x
  unfolding last
  last-All P [] h q = absurd (none-ne-some q)
  last-All P (y ∷ []) h q = subst P (some-injective q) h.0
  last-All P (y ∷ z ∷ zs) h q = last-All P (z ∷ zs) h.1 q

  selectable-All :
      (xs : List ThemeMembershipSnapshot) → All (λ x. is_selectable x ≡ true) (selectable xs)
  unfolding selectable
  selectable-All [] = tt
  selectable-All (x ∷ xs) = elim (Bool-cases (is_selectable x)) [
    | inl fits ↦ rw (fits) (fits, selectable-All xs)
    | inr unfit ↦ rw (unfit) (selectable-All xs)
  ]

  choose-eq-ok :
      (xs : List ThemeMembershipSnapshot) (x : ThemeMembershipSnapshot)
      → choose xs ≡ ok (some x)
      → (last (sort_by is_earlier xs) ≡ some x) × (count_key x xs ≤ 1)
  unfolding choose
  choose-eq-ok xs x h = elim (Option-cases (last (sort_by is_earlier xs))) [
    | inl empty ↦ ground arith
    | inr (y, found) ↦ ground arith
  ]

  -- The snapshot that is selected is one of the theme, was effective on the market date and known at
  -- the time of the decision, and no other such snapshot has its date and its time.
  pub select_sound :
      (xs : List ThemeMembershipSnapshot) (x : ThemeMembershipSnapshot)
      → select_membership_snapshot xs ≡ ok (some x)
      → (x.theme_id ≡ theme_id)
        × (x.effective_from ≤ market_date)
        × (x.known_at ≤ decision_at)
        × (count_key x (selectable xs) ≤ 1)
  unfolding select_membership_snapshot is_selectable
  select_sound xs x h =
      let (found, single) = choose-eq-ok (selectable xs) x h in
      let fits : is_selectable x ≡ true =
        last-All (λ y. is_selectable y ≡ true) (sort_by is_earlier (selectable xs))
          (sort_by-All is_earlier (λ y. is_selectable y ≡ true) (selectable xs) (selectable-All xs))
          found in
      ground arith
