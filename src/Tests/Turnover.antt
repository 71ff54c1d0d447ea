-- ===== src/Tests/Turnover.antt =====
-- The turnover of packages/calculations/turnover.py at concrete observations.
use dayjaview.Prelude.{
  refl, ℕ, true, false, none, some, String, List, [], ◌∷◌, not, All, String-discrete, ◌≡◌, length,
  ◌≤◌, is_none,
}
use dayjaview.Prelude.Exec.{ok}
use dayjaview.Domain.Membership.{core, related, ThemeMembershipSnapshot, is_selectable}
use dayjaview.Calculations.Turnover.{provisional, ThemeTurnoverResult}
use dayjaview.Calculations.Policies.{
  SameTimeBaselinePolicy, check_baseline_policy, ranking_baseline_policy_v1, backtest_pending,
}
use dayjaview.Domain.Market.{StockTradingValueObservation}
use dayjaview.Calculations.Turnover.Theme.{calculate_theme_turnover}
use dayjaview.Calculations.Turnover.Report.{RestsOn, calculate_theme_turnover-RestsOn}
use dayjaview.Domain.Arithmetic.{of_count}
use dayjaview.Prelude.Dict.{get, put}

abbrev two_back : SameTimeBaselinePolicy
two_back = record ranking_baseline_policy_v1 { lookback_trading_days = 2; minimum_observations = 1 }

two_back_valid : check_baseline_policy two_back ≡ ok tt
unfolding check_baseline_policy String-discrete
two_back_valid = refl

abbrev members_1 : ThemeMembershipSnapshot
members_1 = record {
  theme_id = "theme-1";
  version = "v1";
  effective_from = 5;
  known_at = 50;
  members =
      record { stock_id = "005930"; role = core }
      ∷ record { stock_id = "000660"; role = related }
      ∷ [];
}

abbrev nine : ℕ
nine = 32_400_000_000

abbrev traded : String → ℕ → ℕ → ℕ → StockTradingValueObservation
traded stock_id day at value = record {
  stock_id = stock_id;
  market_date = day;
  observed_at = at;
  time_bucket = nine;
  cumulative_trading_value = some (of_count value);
  comparable = true;
  fresh = true;
  trading_halted = false;
  corporate_action_unresolved = false;
}

-- The second stock is observed after the evaluation.
abbrev trades : List StockTradingValueObservation
trades =
    traded "005930" 10 100 100
    ∷ traded "005930" 11 200 200
    ∷ traded "005930" 12 300 300
    ∷ traded "000660" 12 900 500
    ∷ []

abbrev result : ThemeTurnoverResult
result = record {
  baseline_version = "same-time-turnover-20d-2026.08.1";
  policy_maturity = backtest_pending;
  membership_version = some "v1";
  turnover_multiple = some (of_count 2);
  valid_count = 1;
  total_count = 2;
  baseline_status = provisional;
  stock_metrics =
      record {
        stock_id = "005930";
        current_trading_value = of_count 300;
        baseline_median = of_count 150;
        multiple = of_count 2;
        observation_count = 2;
      }
      ∷ [];
  quality_flags = "PROVISIONAL_BASELINE" ∷ "SOURCE_DEGRADED" ∷ [];
  unavailable_reason = none;
}

calculated :
    calculate_theme_turnover "theme-1" 12 400 nine
      (10 ∷ 11 ∷ 12 ∷ 13 ∷ [])
      (members_1 ∷ [])
      trades
      two_back
    ≡ ok result
unfolding calculate_theme_turnover get put is_selectable
calculated = refl

calculate_theme_turnover-RestsOn_example :
    All
      (RestsOn "theme-1" 12 400 nine (10 ∷ 11 ∷ 12 ∷ 13 ∷ []) (members_1 ∷ []) trades two_back)
      result.stock_metrics
    × (result.valid_count ≡ length result.stock_metrics)
    × (result.valid_count ≤ result.total_count)
    × (is_none result.turnover_multiple ≡ not (is_none result.unavailable_reason))
calculate_theme_turnover-RestsOn_example =
    calculate_theme_turnover-RestsOn "theme-1" 12 400 nine (10 ∷ 11 ∷ 12 ∷ 13 ∷ []) (members_1 ∷ [])
      trades two_back result calculated
