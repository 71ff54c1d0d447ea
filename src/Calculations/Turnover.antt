-- ===== src/Calculations/Turnover.antt =====
-- packages/calculations/turnover.py: the trading value of a theme against that of the same minute on
-- earlier days.
pub mod Theme
pub mod Lengths
pub mod Earlier
pub mod Sound
pub mod Report
use Prim.Native.Nat.{◌/◌, ◌%◌, suc}
use text.Mathlib.Text.{is_le}
use dayjaview.Prelude.{
  text_first, ℕ, Bool, true, false, not, ◌&&◌, Option, none, some, String, String-discrete, ite,
  leb, ltb, ◌==◌, if◌then◌else◌, List, [], ◌∷◌, sort_by, ℕ_discrete, unique, length, is_none, ◌-◌,
  is_in, zero,
}
use dayjaview.Prelude.Exec.{Result, value_error, ok, and_then, raised}
use dayjaview.Domain.Reasons.{
  UnavailableReason, QualityFlag, source_degraded, stale_market_data, provisional_baseline,
}
use dayjaview.Domain.Market.{StockTradingValueObservation}
use dayjaview.Domain.Membership.{ThemeMembershipSnapshot, select_membership_snapshot, contains}
use dayjaview.Prelude.Dict.{Dict, get, put}
use dayjaview.Domain.Decimal.{Decimal, is_at_most, is_nonpositive}
use dayjaview.Domain.Arithmetic.{divide, add, of_count}
use dayjaview.Calculations.Policies.{PolicyMaturity, SameTimeBaselinePolicy}
use dayjaview.Calculations.Attention.{same_days, position, slice}
use dayjaview.Realtime.Aggregation.{has_member}

pub data BaselineStatus : Type 0 where
  full provisional insufficient : BaselineStatus

pub record StockTurnoverMetric : Type 0 where
  pub stock_id : String
  pub current_trading_value : Decimal
  pub baseline_median : Decimal
  pub multiple : Decimal
  pub observation_count : ℕ

pub record ThemeTurnoverResult : Type 0 where
  pub baseline_version : String
  pub policy_maturity : PolicyMaturity
  pub membership_version : Option String
  pub turnover_multiple : Option Decimal
  pub valid_count : ℕ
  pub total_count : ℕ
  pub baseline_status : BaselineStatus
  pub stock_metrics : List StockTurnoverMetric
  pub quality_flags : List String
  pub unavailable_reason : Option UnavailableReason

unfoldable pub value_at : ℕ → List Decimal → Decimal
value_at i [] = of_count 0
value_at zero (d ∷ ds) = d
value_at (suc i) (d ∷ ds) = value_at i ds

-- `_median`, of values of which there is one at least
unfoldable pub median : List Decimal → Decimal
unfolding value_at add divide sort_by is_at_most
median values =
    let ordered = sort_by is_at_most values in
    let middle : ℕ = length values / 2 in
    if length values % 2 == 1
    then value_at middle ordered
    else divide 60 (add 60 (value_at (middle - 1) ordered) (value_at middle ordered)) (of_count 2)

-- `_validate_trading_days`
unfoldable pub validate_trading_days : List ℕ → ℕ → ℕ → Result (List ℕ)
unfolding sort_by unique ℕ_discrete same_days is_in position slice
validate_trading_days trading_days evaluation_date lookback =
    if not (same_days (sort_by leb (unique ℕ_discrete trading_days)) trading_days)
    then raised value_error
    else if not (is_in ℕ_discrete evaluation_date trading_days)
    then raised value_error
    else (let at : ℕ = position evaluation_date trading_days in
        ok (slice (at - lookback) at trading_days))

abbrev pub ObservationKey : Type 0
ObservationKey = String × ℕ

unfoldable pub ObservationKey-discrete : Discrete ObservationKey
unfolding ℕ_discrete String-discrete
ObservationKey-discrete = hlevel (ℕ_discrete, String-discrete)

abbrev pub Observations : Type 0
Observations = Dict ObservationKey StockTradingValueObservation

-- `_index_observations`
unfoldable pub index_observations :
    ℕ → List StockTradingValueObservation → Observations → Result Observations
unfolding ObservationKey-discrete
index_observations time_bucket [] indexed = ok indexed
index_observations time_bucket (o ∷ os) indexed =
    let key : ObservationKey = (o.stock_id, o.market_date) in
    let skipped = index_observations time_bucket os indexed in
    let rest = index_observations time_bucket os (put ObservationKey-discrete key o indexed) in
    if not (o.time_bucket == time_bucket)
    then skipped
    else if is_none (get ObservationKey-discrete key indexed)
    then rest
    else raised value_error

-- `_is_usable`, with the value of a usable observation
unfoldable pub usable_value : ℕ → Option StockTradingValueObservation → Option Decimal
usable_value decision_at none = none
usable_value decision_at (some o) =
    if leb o.observed_at decision_at
      && o.comparable
      && o.fresh
      && not o.trading_halted
      && not o.corporate_action_unresolved
    then o.cumulative_trading_value
    else none

-- The flag of a current observation that is not usable.
abbrev pub unusable_flag : Option StockTradingValueObservation → QualityFlag
unusable_flag none = source_degraded
unusable_flag (some o) =
    if o.trading_halted
    then QualityFlag.trading_halted
    else if o.corporate_action_unresolved
    then QualityFlag.corporate_action_unresolved
    else if not o.fresh
    then stale_market_data
    else source_degraded

abbrev pub with_value : Bool → Option Decimal → List Decimal → List Decimal
with_value true (some v) vs = v ∷ vs
with_value true none vs = vs
with_value false v vs = vs

-- What the evaluation of one theme reads.
pub record TurnoverInputs : Type 0 where
  pub theme_id : String
  pub evaluation_date : ℕ
  pub evaluation_at : ℕ
  pub snapshots : List ThemeMembershipSnapshot
  pub indexed : Observations
  pub history_dates : List ℕ
  pub policy : SameTimeBaselinePolicy

-- The values of the later rounds, with that of a day: a day counts if the stock was a member, as far
-- as that was known then.
unfoldable pub historical_at :
    TurnoverInputs
    → String
    → ℕ
    → Option StockTradingValueObservation
    → Result (List Decimal)
    → Result (List Decimal)
unfolding usable_value select_membership_snapshot contains
historical_at t stock_id date none rest = rest
historical_at t stock_id date (some h) rest =
    and_then (select_membership_snapshot t.theme_id date h.observed_at t.snapshots) (λ membership.
      and_then rest (λ values.
        ok (
          with_value (has_member stock_id membership) (usable_value h.observed_at (some h))
            values)))

unfoldable pub historical_values : TurnoverInputs → String → List ℕ → Result (List Decimal)
unfolding historical_at ObservationKey-discrete
historical_values t stock_id [] = ok []
historical_values t stock_id (date ∷ dates) =
    historical_at t stock_id date (get ObservationKey-discrete (stock_id, date) t.indexed)
      (historical_values t stock_id dates)

-- What one member comes to: a metric, or the flag that says why there is none.
pub data MemberTurnover : Type 0 where
  flagged : QualityFlag → MemberTurnover
  measured : StockTurnoverMetric → MemberTurnover

unfoldable pub measure : ℕ → String → Decimal → List Decimal → MemberTurnover
unfolding median divide
measure minimum_observations stock_id current values =
    let baseline = median values in
    if ltb (length values) minimum_observations
    then flagged QualityFlag.insufficient_observations
    else if is_nonpositive baseline
    then flagged QualityFlag.zero_baseline
    else measured (record {
      stock_id = stock_id;
      current_trading_value = current;
      baseline_median = baseline;
      multiple = divide 60 current baseline;
      observation_count = length values;
    })

-- The round of the loop for a member with the given value on the evaluation date.
unfoldable pub measure_current :
    TurnoverInputs
    → String
    → Option StockTradingValueObservation
    → Option Decimal
    → Result MemberTurnover
unfolding measure historical_values
measure_current t stock_id current none = ok (flagged (unusable_flag current))
measure_current t stock_id current (some value) =
    and_then (historical_values t stock_id t.history_dates)
      (λ values. ok (measure t.policy.minimum_observations stock_id value values))

unfoldable pub measure_member : TurnoverInputs → String → Result MemberTurnover
unfolding measure_current
measure_member t stock_id =
    let current = get ObservationKey-discrete (stock_id, t.evaluation_date) t.indexed in
    measure_current t stock_id current (usable_value t.evaluation_at current)
