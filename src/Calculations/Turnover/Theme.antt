-- ===== src/Calculations/Turnover/Theme.antt =====
-- `calculate_theme_turnover` of packages/calculations/turnover.py, over the turnover of the members.
use Prim.Native.String.{compare as compare_text}
use text.Mathlib.Text.{is_le}
use dayjaview.Prelude.{
  text_first, ℕ, Bool, true, ◌&&◌, Option, none, some, String, String-discrete, ◌==◌, if◌then◌else◌,
  List, [], ◌∷◌, sort_by, unique, length, map,
}
use dayjaview.Prelude.Exec.{Result, ok, and_then}
use dayjaview.Domain.Reasons.{
  UnavailableReason, QualityFlag, provisional_baseline, membership_history_unavailable, flag_value,
}
use dayjaview.Calculations.Turnover.{
  full, provisional, BaselineStatus, StockTurnoverMetric, MemberTurnover, measure_member, sort_by,
  SameTimeBaselinePolicy, ThemeMembershipSnapshot, flagged, TurnoverInputs, unique,
  ThemeTurnoverResult, length, Decimal, divide, StockTradingValueObservation, measured, ok,
  is_nonpositive, Observations, validate_trading_days, and_then, index_observations,
  select_membership_snapshot,
}
use dayjaview.Domain.Membership.{ThemeMember, ThemeMembershipSnapshot, select_membership_snapshot}
use dayjaview.Calculations.Policies.{SameTimeBaselinePolicy}
use dayjaview.Domain.Arithmetic.{sum_from, divide, total}
use dayjaview.Domain.Decimal.{Decimal, is_nonpositive}
use dayjaview.Domain.Market.{StockTradingValueObservation}
use dayjaview.Calculations.Intervals.{sorted_texts}

-- The flags and the metrics that the loop collects.
pub record Collected : Type 0 where
  pub flags : List QualityFlag
  pub metrics : List StockTurnoverMetric

abbrev pub collect_one : MemberTurnover → Collected → Collected
collect_one (flagged flag) c = record c { flags = flag ∷ c.flags }
collect_one (measured metric) c = record c { metrics = metric ∷ c.metrics }

unfoldable pub measure_members : TurnoverInputs → List ThemeMember → Result Collected
unfolding measure_member
measure_members t [] = ok (record { flags = []; metrics = [] })
measure_members t (m ∷ ms) =
    let rest = measure_members t ms in
    and_then (measure_member t m.stock_id) (λ one. and_then rest (λ c. ok (collect_one one c)))

unfoldable pub member_first : ThemeMember → ThemeMember → Bool
member_first a b = is_le (compare_text a.stock_id b.stock_id)

unfoldable pub metric_first : StockTurnoverMetric → StockTurnoverMetric → Bool
metric_first a b = is_le (compare_text a.stock_id b.stock_id)

-- The texts of a set of flags, sorted.
unfoldable pub flag_texts : List QualityFlag → List String
unfolding sort_by text_first unique String-discrete
flag_texts flags = sorted_texts (map flag_value flags)

unfoldable pub all_observed : ℕ → List StockTurnoverMetric → Bool
all_observed lookback [] = true
all_observed lookback (m ∷ ms) = m.observation_count == lookback && all_observed lookback ms

abbrev pub unavailable_turnover :
    SameTimeBaselinePolicy
    → Option String
    → ℕ
    → List String
    → UnavailableReason
    → ThemeTurnoverResult
unavailable_turnover policy version total_count flags reason = record {
  baseline_version = policy.version;
  policy_maturity = policy.maturity;
  membership_version = version;
  turnover_multiple = none;
  valid_count = 0;
  total_count = total_count;
  baseline_status = BaselineStatus.insufficient;
  stock_metrics = [];
  quality_flags = flags;
  unavailable_reason = some reason;
}

-- The status of a baseline over all members, or over some of them only.
abbrev pub baseline_status_of :
    SameTimeBaselinePolicy → ℕ → List StockTurnoverMetric → BaselineStatus
baseline_status_of policy total_count metrics =
    if length metrics == total_count && all_observed policy.lookback_trading_days metrics
    then full
    else provisional

abbrev pub with_status : BaselineStatus → List QualityFlag → List QualityFlag
with_status full flags = flags
with_status provisional flags = provisional_baseline ∷ flags
with_status BaselineStatus.insufficient flags = flags

abbrev pub measured_turnover :
    SameTimeBaselinePolicy
    → String
    → ℕ
    → List QualityFlag
    → List StockTurnoverMetric
    → Decimal
    → Decimal
    → ThemeTurnoverResult
measured_turnover policy version total_count flags metrics numerator denominator =
    let empty = is_nonpositive denominator in
    let status =
      if empty
      then BaselineStatus.insufficient
      else baseline_status_of policy total_count metrics in
    record {
      baseline_version = policy.version;
      policy_maturity = policy.maturity;
      membership_version = some version;
      turnover_multiple = if empty then none else some (divide 60 numerator denominator);
      valid_count = length metrics;
      total_count = total_count;
      baseline_status = status;
      stock_metrics = metrics;
      quality_flags =
          flag_texts
            (if empty then QualityFlag.zero_baseline ∷ flags else with_status status flags);
      unavailable_reason = if empty then some UnavailableReason.zero_baseline else none;
    }

-- What is made of the members that were measured. The sums have the 28 digits of the default
-- context.
unfoldable pub summarize :
    SameTimeBaselinePolicy
    → String
    → ℕ
    → List QualityFlag
    → List StockTurnoverMetric
    → ThemeTurnoverResult
unfolding flag_texts all_observed sum_from divide
summarize policy version total_count flags [] =
    unavailable_turnover policy (some version) total_count (flag_texts flags)
      UnavailableReason.insufficient_observations
summarize policy version total_count flags (m ∷ ms) =
    measured_turnover policy version total_count flags (m ∷ ms)
      (total 28 (map (λ x. StockTurnoverMetric.current_trading_value x) (m ∷ ms)))
      (total 28 (map (λ x. StockTurnoverMetric.baseline_median x) (m ∷ ms)))

-- The evaluation, for the members of the evaluation date.
unfoldable pub turnover_of :
    TurnoverInputs → Option ThemeMembershipSnapshot → Result ThemeTurnoverResult
unfolding measure_members summarize sort_by member_first metric_first
turnover_of t none = ok (
    unavailable_turnover t.policy none 0 (flag_value QualityFlag.membership_version_mismatch ∷ [])
      membership_history_unavailable)
turnover_of t (some membership) =
    and_then (measure_members t (sort_by member_first membership.members)) (λ c. ok (
      summarize t.policy membership.version (length membership.members) c.flags
        (sort_by metric_first c.metrics)))

module _ (theme_id : String) (evaluation_date evaluation_at time_bucket : ℕ) (trading_days : List ℕ)
    (snapshots : List ThemeMembershipSnapshot) (observations : List StockTradingValueObservation)
    (policy : SameTimeBaselinePolicy) where
  abbrev pub turnover_inputs : List ℕ → Observations → TurnoverInputs
  turnover_inputs history_dates indexed = record {
    theme_id = theme_id;
    evaluation_date = evaluation_date;
    evaluation_at = evaluation_at;
    snapshots = snapshots;
    indexed = indexed;
    history_dates = history_dates;
    policy = policy;
  }

  unfoldable pub calculate_theme_turnover : Result ThemeTurnoverResult
  unfolding validate_trading_days index_observations select_membership_snapshot turnover_of
  calculate_theme_turnover =
      and_then (validate_trading_days trading_days evaluation_date policy.lookback_trading_days)
        (λ history_dates. and_then (index_observations time_bucket observations []) (λ indexed.
          and_then (select_membership_snapshot theme_id evaluation_date evaluation_at snapshots)
            (λ membership. turnover_of (turnover_inputs history_dates indexed) membership)))
