-- ===== src/Calculations/Turnover/Lengths.antt =====
-- How many values the steps of packages/calculations/turnover.py come to at most.
use mathlib.Core.Path.{ap}
use dayjaview.Calculations.Attention.{slice, position, same_days}
use dayjaview.Prelude.{
  refl, ℕ, Bool, true, false, Option, none, some, String, List, [], ◌∷◌, length, insert_by, sort_by,
  ◌≤◌, ◌≡◌, ◌+◌, arith, suc, ◌-◌, subst, zero, Bool-cases, leb, unique, ℕ_discrete, inr, inl, is_in,
}
use dayjaview.Prelude.Exec.{Result, ok, and_then-eq-ok, ok-injective}
use dayjaview.Calculations.Turnover.{
  historical_at, validate_trading_days, historical_values, with_value, TurnoverInputs, ok,
  StockTradingValueObservation, suc, select_membership_snapshot, has_member, get, leb, usable_value,
  ObservationKey-discrete, unique, ℕ_discrete, is_in,
}
use dayjaview.Domain.Decimal.{Decimal}
use dayjaview.Domain.Market.{StockTradingValueObservation}
use dayjaview.Domain.Membership.{select_membership_snapshot}
use dayjaview.Realtime.Aggregation.{has_member}
use dayjaview.Prelude.Dict.{get}

length-slice : (begin stop : ℕ) (ds : List ℕ) → length (slice begin stop ds) ≤ stop - begin
unfolding slice
length-slice begin stop [] = ground arith
length-slice begin zero (d ∷ ds) = ground arith
length-slice zero (suc stop) (d ∷ ds) = omega (arith, length-slice zero stop ds)
length-slice (suc begin) (suc stop) (d ∷ ds) = omega (arith, length-slice begin stop ds)

pub validate_trading_days-length :
    (days : List ℕ) (date lookback : ℕ) (history : List ℕ)
    → validate_trading_days days date lookback ≡ ok history
    → length history ≤ lookback
unfolding validate_trading_days
validate_trading_days-length days date lookback history h =
    let at : ℕ = position date days in
    let short = length-slice (at - lookback) at days in
    elim (Bool-cases (same_days (sort_by leb (unique ℕ_discrete days)) days)) [
      | inr unfit ↦ ground arith
      | inl fits ↦ elim (Bool-cases (is_in ℕ_discrete date days)) [
        | inr missing ↦ ground arith
        | inl there ↦
            let same : slice (at - lookback) at days ≡ history = ground arith in
            subst (λ l. length l ≤ lookback) same (omega (arith, short))
      ]
    ]

with_value-length :
    (b : Bool) (v : Option Decimal) (vs : List Decimal) → length (with_value b v vs) ≤ length vs + 1
with_value-length true (some v) vs = omega arith
with_value-length true none vs = omega arith
with_value-length false v vs = omega arith

historical_at-length :
    (t : TurnoverInputs) (stock_id : String) (date n : ℕ) (o : Option StockTradingValueObservation)
    (rest : Result (List Decimal)) (values : List Decimal)
    → ((vs : List Decimal) → rest ≡ ok vs → length vs ≤ n)
    → historical_at t stock_id date o rest ≡ ok values
    → length values ≤ n + 1
unfolding historical_at
historical_at-length t stock_id date n none rest values short h = omega (arith, short values h)
historical_at-length t stock_id date n (some o) rest values short h =
    let (m, chosen, h1) =
      and_then-eq-ok (select_membership_snapshot t.theme_id date o.observed_at t.snapshots) _ h in
    let (vs, found, h2) = and_then-eq-ok rest _ h1 in
    let one = with_value-length (has_member stock_id m) (usable_value o.observed_at (some o)) vs in
    let same = ap (λ (l : List Decimal). length l) (ok-injective h2) in
    omega (arith, one, same, short vs found)

pub historical_values-length :
    (t : TurnoverInputs) (stock_id : String) (dates : List ℕ) (values : List Decimal)
    → historical_values t stock_id dates ≡ ok values
    → length values ≤ length dates
unfolding historical_values
historical_values-length t stock_id [] values h =
    subst (λ (l : List Decimal). length l ≤ 0) (ok-injective h) (omega arith)
historical_values-length t stock_id (date ∷ dates) values h = omega (
  arith,
  historical_at-length t stock_id date (length dates)
      (get ObservationKey-discrete (stock_id, date) t.indexed) (historical_values t stock_id dates)
      values (λ vs found. historical_values-length t stock_id dates vs found) h,
)

length-insert_by :
    {A : Type 0} (first : A → A → Bool) (x : A) (xs : List A)
    → length (insert_by first x xs) ≡ suc (length xs)
unfolding insert_by
length-insert_by first x [] = omega arith
length-insert_by first x (y ∷ xs) = ground (arith, length-insert_by first x xs)

pub length-sort_by :
    {A : Type 0} (first : A → A → Bool) (xs : List A) → length (sort_by first xs) ≡ length xs
unfolding sort_by
length-sort_by first [] = refl
length-sort_by first (x ∷ xs) =
    omega (arith, length-insert_by first x (sort_by first xs), length-sort_by first xs)
