-- ===== src/Calculations/Policies.antt =====
-- packages/calculations/policies.py: the versioned policies of the calculations, and their checks.
use dayjaview.Prelude.{ℕ, Bool, true, false, not, ◌&&◌, String, String-discrete, ite, ltb}
use dayjaview.Prelude.Exec.{Result, value_error, require}
use dayjaview.Domain.Decimal.{Decimal, finite, is_finite, is_at_most, is_nonpositive, one, down}

pub data PolicyMaturity : Type 0 where
  adopted backtest_pending : PolicyMaturity

abbrev is_unnamed : String → Bool
is_unnamed version = ite (String-discrete version "") true false

-- Finite, greater than 0 and at most 1.
abbrev pub is_share : Decimal → Bool
is_share d = is_finite d && not (is_nonpositive d) && is_at_most d one

pub record ThemeCalculationPolicy : Type 0 where
  pub version : String
  pub maturity : PolicyMaturity
  pub maximum_constituent_weight : Decimal
  pub sufficient_core_weight_ratio : Decimal
  pub sufficient_related_count_ratio : Decimal
  pub minimum_core_observations : ℕ
  pub minimum_total_observations : ℕ

-- `ThemeCalculationPolicy.__post_init__`
unfoldable pub check_theme_policy : ThemeCalculationPolicy → Result (Unit {0})
unfolding is_at_most
check_theme_policy p =
    require
      (not (is_unnamed p.version)
        && is_share p.maximum_constituent_weight
        && is_share p.sufficient_core_weight_ratio
        && is_share p.sufficient_related_count_ratio
        && not (ltb p.minimum_core_observations 1)
        && not (ltb p.minimum_total_observations p.minimum_core_observations))
      value_error

pub record SameTimeBaselinePolicy : Type 0 where
  pub version : String
  pub maturity : PolicyMaturity
  pub lookback_trading_days : ℕ
  pub minimum_observations : ℕ

-- `SameTimeBaselinePolicy.__post_init__`
unfoldable pub check_baseline_policy : SameTimeBaselinePolicy → Result (Unit {0})
check_baseline_policy p =
    require
      (not (is_unnamed p.version)
        && not (ltb p.lookback_trading_days 1)
        && not (ltb p.minimum_observations 1)
        && not (ltb p.lookback_trading_days p.minimum_observations))
      value_error

pub record AttentionPolicy : Type 0 where
  pub version : String
  pub maturity : PolicyMaturity
  pub turnover_multiple_threshold : Decimal
  pub stock_multiple_threshold : Decimal
  pub spread_ratio_threshold : Decimal
  pub minimum_high_interest_stocks : ℕ
  pub weighted_return_threshold : Decimal
  pub minimum_valid_members : ℕ
  pub close_after_absent_trading_days : ℕ

-- `AttentionPolicy.__post_init__`
unfoldable pub check_attention_policy : AttentionPolicy → Result (Unit {0})
unfolding is_at_most
check_attention_policy p =
    require
      (not (is_unnamed p.version)
        && is_finite p.turnover_multiple_threshold
        && is_finite p.stock_multiple_threshold
        && is_finite p.spread_ratio_threshold
        && is_finite p.weighted_return_threshold
        && not (is_nonpositive p.turnover_multiple_threshold)
        && not (is_nonpositive p.stock_multiple_threshold)
        && is_share p.spread_ratio_threshold
        && not (ltb p.minimum_high_interest_stocks 1)
        && not (ltb p.minimum_valid_members 1)
        && not (ltb p.close_after_absent_trading_days 1))
      value_error

abbrev hundredths : ℕ → Decimal
hundredths n = finite false n (down 2)

abbrev tenths : ℕ → Decimal
tenths n = finite false n (down 1)

abbrev pub theme_calculation_policy_v1 : ThemeCalculationPolicy
theme_calculation_policy_v1 = record {
  version = "theme-metrics-2026.08.1";
  maturity = backtest_pending;
  maximum_constituent_weight = hundredths 30;
  sufficient_core_weight_ratio = hundredths 80;
  sufficient_related_count_ratio = hundredths 70;
  minimum_core_observations = 2;
  minimum_total_observations = 3;
}

abbrev pub ranking_baseline_policy_v1 : SameTimeBaselinePolicy
ranking_baseline_policy_v1 = record {
  version = "same-time-turnover-20d-2026.08.1";
  maturity = backtest_pending;
  lookback_trading_days = 20;
  minimum_observations = 5;
}

abbrev pub attention_baseline_policy_v1 : SameTimeBaselinePolicy
attention_baseline_policy_v1 = record {
  version = "same-time-attention-60d-2026.08.1";
  maturity = backtest_pending;
  lookback_trading_days = 60;
  minimum_observations = 40;
}

abbrev pub attention_policy_v1 : AttentionPolicy
attention_policy_v1 = record {
  version = "attention-interval-2026.08.1";
  maturity = backtest_pending;
  turnover_multiple_threshold = tenths 20;
  stock_multiple_threshold = tenths 20;
  spread_ratio_threshold = hundredths 30;
  minimum_high_interest_stocks = 2;
  weighted_return_threshold = hundredths 1;
  minimum_valid_members = 3;
  close_after_absent_trading_days = 10;
}
