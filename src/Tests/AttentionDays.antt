-- ===== src/Tests/AttentionDays.antt =====
-- The judgement of a day in packages/calculations/attention.py, and a timeline of such days.
use Prim.Native.Nat.{◌*◌}
use dayjaview.Prelude.{
  refl, ℕ, false, [], ◌∷◌, some, none, String, All, ◌≡◌, is_in, without, String-discrete,
  ℕ_discrete, insert_by, map,
}
use dayjaview.Prelude.Exec.{ok}
use dayjaview.Domain.Decimal.{finite, down}
use dayjaview.Domain.Coverage.{sufficient, CoveragePart, check_part}
use dayjaview.Calculations.Turnover.{full, ThemeTurnoverResult, StockTurnoverMetric}
use dayjaview.Calculations.Intervals.{AttentionTimeline}
use dayjaview.Calculations.Attention.Days.{
  DayInput, signal_on, AttentiveOn, evaluate_attention_day-build_attention_timeline,
}
use dayjaview.Calculations.Metrics.{ThemeMetrics}
use dayjaview.Calculations.Attention.{build_attention_timeline}
use dayjaview.Calculations.AttentionDay.{evaluate_attention_day}
use dayjaview.Calculations.Policies.{backtest_pending, attention_policy_v1}
use dayjaview.Domain.Arithmetic.{of_count}
use dayjaview.Prelude.Dict.{get, put}
use dayjaview.Domain.Reasons.{no_prior_attention_interval}

abbrev measured_stock : String → ℕ → StockTurnoverMetric
measured_stock stock_id multiple = record {
  stock_id = stock_id;
  current_trading_value = of_count (multiple * 100);
  baseline_median = of_count 100;
  multiple = of_count multiple;
  observation_count = 60;
}

abbrev turnover : ThemeTurnoverResult
turnover = record {
  baseline_version = "same-time-attention-60d-2026.08.1";
  policy_maturity = backtest_pending;
  membership_version = some "v1";
  turnover_multiple = some (of_count 2);
  valid_count = 3;
  total_count = 3;
  baseline_status = full;
  stock_metrics =
      measured_stock "000660" 3 ∷ measured_stock "005380" 1 ∷ measured_stock "005930" 2 ∷ [];
  quality_flags = [];
  unavailable_reason = none;
}

abbrev part : CoveragePart
part = record {
  observed_count = 3;
  total_count = 3;
  count_ratio = some (of_count 1);
  observed_weight_ratio = some (of_count 1);
}

part_valid : check_part part ≡ ok tt
unfolding check_part
part_valid = refl

abbrev metrics : ThemeMetrics
metrics = record {
  calculation_version = "theme-metrics-2026.08.1";
  policy_maturity = backtest_pending;
  membership_version = "v1";
  weighted_return = some (finite false 3 (down 2));
  median_return = some (finite false 2 (down 2));
  advancing_count = some 3;
  valid_count = some 3;
  advancing_ratio = some (of_count 1);
  coverage = record { status = sufficient; core = part; related = part };
  capped_weights = [];
  quality_flags = [];
  issues = [];
  reference_versions = "r1" ∷ [];
}

abbrev input : DayInput
input = record { market_date = 12; metrics = metrics; turnover = turnover }

-- Too few valid members.
thin :
    (signal_on attention_policy_v1
      (record input { turnover = record turnover { valid_count = 2 } })).is_attention
    ≡ none
unfolding evaluate_attention_day String-discrete
thin = refl

abbrev judged_timeline : AttentionTimeline
judged_timeline = record {
  policy_version = "attention-interval-2026.08.1";
  policy_maturity = backtest_pending;
  intervals =
      record {
        first_attention_date = 12;
        last_attention_date = 12;
        closed_confirmation_date = none;
        gap_trading_days = none;
        gap_unavailable_reason = some no_prior_attention_interval;
        membership_versions = "v1" ∷ [];
        calculation_versions = "theme-metrics-2026.08.1" ∷ [];
        baseline_versions = "same-time-attention-60d-2026.08.1" ∷ [];
        attention_policy_version = "attention-interval-2026.08.1";
      }
      ∷ [];
}

judged :
    build_attention_timeline attention_policy_v1
      (map (signal_on attention_policy_v1) (input ∷ []))
      (11 ∷ 12 ∷ [])
    ≡ ok judged_timeline
unfolding build_attention_timeline evaluate_attention_day get put is_in without String-discrete
    ℕ_discrete insert_by
judged = refl

evaluate_attention_day-build_attention_timeline_example :
    All
      (λ i.
        AttentiveOn attention_policy_v1 (input ∷ []) i.first_attention_date
        × AttentiveOn attention_policy_v1 (input ∷ []) i.last_attention_date)
      judged_timeline.intervals
evaluate_attention_day-build_attention_timeline_example =
    evaluate_attention_day-build_attention_timeline attention_policy_v1 (input ∷ []) (11 ∷ 12 ∷ [])
      judged_timeline judged
