-- ===== src/Calculations/Turnover/Earlier.antt =====
-- The earlier days of packages/calculations/turnover.py, and the values that are taken from them.
use dayjaview.Prelude.{
  refl, ℕ, Bool, true, false, ◌==◌, Option, none, some, String, List, [], ◌∷◌, Any, All, All-imp,
  ◌≡◌, ◌≤◌, ◌<◌, ◌-◌, suc, subst, arith, Bool-cases, inl, inr, is_in, sort_by, unique, leb,
  ℕ_discrete, zero,
}
use dayjaview.Prelude.Exec.{Result, ok, and_then-eq-ok, ok-injective}
use dayjaview.Prelude.Dict.{get}
use dayjaview.Domain.Decimal.{Decimal}
use dayjaview.Domain.Market.{StockTradingValueObservation}
use dayjaview.Domain.Membership.{ThemeMembershipSnapshot, select_membership_snapshot}
use dayjaview.Realtime.Aggregation.{has_member}
use dayjaview.Calculations.Attention.{slice, position, same_days}
use dayjaview.Calculations.Calendar.{
  AscendingFrom, same_days-eq, sort_by-Ascending, unique-AllApart,
}
use dayjaview.Calculations.Turnover.{
  TurnoverInputs, ObservationKey-discrete, historical_at, historical_values, usable_value,
  validate_trading_days, with_value,
}

-- One of the trading days, before the date.
abbrev pub IsEarlier : List ℕ → ℕ → ℕ → Type 0
IsEarlier days date day = Any (λ d. d ≡ day) days × (day < date)

from_le :
    (from date : ℕ) (ds : List ℕ)
    → AscendingFrom from ds
    → is_in ℕ_discrete date ds ≡ true
    → from ≤ date
unfolding is_in
from_le from date [] h there = ground arith
from_le from date (d ∷ ds) h there = elim (ℕ_discrete d date) [
  | yes same ↦ ground arith
  | no other ↦
      let later : is_in ℕ_discrete date ds ≡ true = ground arith in
      omega (arith, h.0, from_le (suc d) date ds h.1 later)
]

slice-IsEarlier :
    (from begin date : ℕ) (ds : List ℕ)
    → AscendingFrom from ds
    → is_in ℕ_discrete date ds ≡ true
    → All (IsEarlier ds date) (slice begin (position date ds) ds)
unfolding slice position is_in
slice-IsEarlier from begin date [] h there = tt
slice-IsEarlier from begin date (d ∷ ds) h there = elim (Bool-cases (d == date)) [
  | inl same ↦ rw (same) tt
  | inr other ↦
      let later : is_in ℕ_discrete date ds ≡ true = ground arith in
      let before : d < date = omega (arith, from_le (suc d) date ds h.1 later) in
      let stop : position date (d ∷ ds) ≡ suc (position date ds) = ground arith in
      rw (stop) (taken (λ begin. slice-IsEarlier (suc d) begin date ds h.1 later) begin before)
]
  where
    taken :
        ((begin : ℕ) → All (IsEarlier ds date) (slice begin (position date ds) ds))
        → (begin : ℕ) → d < date
        → All (IsEarlier (d ∷ ds) date) (slice begin (suc (position date ds)) (d ∷ ds))
    taken rest zero before = (
      (inl refl, before),
      All-imp (slice zero (position date ds) ds) (λ day q. (inr q.0, q.1)) (rest zero),
    )
    taken rest (suc begin) before =
        All-imp (slice begin (position date ds) ds) (λ day q. (inr q.0, q.1)) (rest begin)

pub validate_trading_days-IsEarlier :
    (days : List ℕ) (date lookback : ℕ) (history : List ℕ)
    → validate_trading_days days date lookback ≡ ok history
    → All (IsEarlier days date) history
unfolding validate_trading_days
validate_trading_days-IsEarlier days date lookback history h =
    let begin : ℕ = position date days - lookback in
    elim (Bool-cases (same_days (sort_by leb (unique ℕ_discrete days)) days)) [
      | inr unfit ↦ ground arith
      | inl fits ↦ elim (Bool-cases (is_in ℕ_discrete date days)) [
        | inr missing ↦ ground arith
        | inl there ↦
            let same : slice begin (position date days) days ≡ history = ground arith in
            let ascending =
              subst (AscendingFrom 0)
                (same_days-eq (sort_by leb (unique ℕ_discrete days)) days fits)
                (sort_by-Ascending (unique ℕ_discrete days) (unique-AllApart days)) in
            subst (All (IsEarlier days date)) same
              (slice-IsEarlier 0 begin date days ascending there)
      ]
    ]

-- A value of the history: that of a usable observation of the stock on one of the dates, of which it
-- was a member as far as that was known at the observation.
pub record IsPast (t : TurnoverInputs) (stock_id : String) (dates : List ℕ) (v : Decimal)
    : Type 0 where
  pub date : ℕ
  pub on_date : Any (λ d. d ≡ date) dates
  pub past : StockTradingValueObservation
  pub at_date : get ObservationKey-discrete (stock_id, date) t.indexed ≡ some past
  pub usable : usable_value past.observed_at (some past) ≡ some v
  pub membership : Option ThemeMembershipSnapshot
  pub chosen :
      select_membership_snapshot t.theme_id date past.observed_at t.snapshots ≡ ok membership
  pub is_member : has_member stock_id membership ≡ true

IsPast-later :
    (t : TurnoverInputs) (stock_id : String) (date : ℕ) (dates : List ℕ) (v : Decimal)
    → IsPast t stock_id dates v
    → IsPast t stock_id (date ∷ dates) v
IsPast-later t stock_id date dates v q = record {
  date = q.date;
  on_date = inr q.on_date;
  past = q.past;
  at_date = q.at_date;
  usable = q.usable;
  membership = q.membership;
  chosen = q.chosen;
  is_member = q.is_member;
}

module _ (t : TurnoverInputs) (stock_id : String) (date : ℕ) (dates : List ℕ) where
  with_value-IsPast :
      (o : StockTradingValueObservation) (m : Option ThemeMembershipSnapshot) (vs : List Decimal)
      → get ObservationKey-discrete (stock_id, date) t.indexed ≡ some o
      → select_membership_snapshot t.theme_id date o.observed_at t.snapshots ≡ ok m
      → All (IsPast t stock_id (date ∷ dates)) vs
      → All
          (IsPast t stock_id (date ∷ dates))
          (with_value (has_member stock_id m) (usable_value o.observed_at (some o)) vs)
  with_value-IsPast o m vs at chosen rest =
      by_tests (has_member stock_id m) (usable_value o.observed_at (some o)) refl refl
    where
      by_tests :
          (b : Bool) (v : Option Decimal)
          → has_member stock_id m ≡ b
          → usable_value o.observed_at (some o) ≡ v
          → All (IsPast t stock_id (date ∷ dates)) (with_value b v vs)
      by_tests false v member usable = rest
      by_tests true none member usable = rest
      by_tests true (some v) member usable = (
        record {
          date = date;
          on_date = inl refl;
          past = o;
          at_date = at;
          usable = usable;
          membership = m;
          chosen = chosen;
          is_member = member;
        },
        rest,
      )

  historical_at-IsPast :
      (o : Option StockTradingValueObservation) (rest : Result (List Decimal))
      (values : List Decimal)
      → get ObservationKey-discrete (stock_id, date) t.indexed ≡ o
      → ((vs : List Decimal) → rest ≡ ok vs → All (IsPast t stock_id dates) vs)
      → historical_at t stock_id date o rest ≡ ok values
      → All (IsPast t stock_id (date ∷ dates)) values
  unfolding historical_at
  historical_at-IsPast none rest values at past h =
      All-imp values (IsPast-later t stock_id date dates) (past values h)
  historical_at-IsPast (some o) rest values at past h =
      let (m, chosen, h1) =
        and_then-eq-ok (select_membership_snapshot t.theme_id date o.observed_at t.snapshots) _ h in
      let (vs, found, h2) = and_then-eq-ok rest _ h1 in
      subst (All (IsPast t stock_id (date ∷ dates))) (ok-injective h2) (
        with_value-IsPast o m vs at chosen
          (All-imp vs (IsPast-later t stock_id date dates) (past vs found)))

pub historical_values-IsPast :
    (t : TurnoverInputs) (stock_id : String) (dates : List ℕ) (values : List Decimal)
    → historical_values t stock_id dates ≡ ok values
    → All (IsPast t stock_id dates) values
unfolding historical_values
historical_values-IsPast t stock_id [] values h =
    subst (All (IsPast t stock_id [])) (ok-injective h) tt
historical_values-IsPast t stock_id (date ∷ dates) values h =
    historical_at-IsPast t stock_id date dates
      (get ObservationKey-discrete (stock_id, date) t.indexed) (historical_values t stock_id dates)
      values refl (λ vs found. historical_values-IsPast t stock_id dates vs found) h
