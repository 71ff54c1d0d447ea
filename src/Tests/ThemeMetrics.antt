-- ===== src/Tests/ThemeMetrics.antt =====
-- The metrics of packages/calculations/theme_metrics.py at concrete prices.
use dayjaview.Prelude.{refl, ℕ, true, false, List, [], ◌∷◌, some, none, String, ◌≡◌}
use dayjaview.Prelude.Exec.{ok, raised, value_error}
use dayjaview.Domain.Decimal.{finite, down}
use dayjaview.Domain.Membership.{core, related, ThemeMembershipSnapshot}
use dayjaview.Calculations.Policies.{
  ThemeCalculationPolicy, theme_calculation_policy_v1, backtest_pending,
}
use dayjaview.Domain.Market.{StockMarketObservation}
use dayjaview.Domain.References.{StockReference}
use dayjaview.Calculations.Metrics.{ThemeMetrics, rank_eligible}
use dayjaview.Domain.Arithmetic.{of_count}
use dayjaview.Calculations.ThemeMetrics.Theme.{calculate_theme_metrics}
use dayjaview.Calculations.ThemeMetrics.Restrained.{
  IsRestrained, calculate_theme_metrics-IsRestrained,
}
use dayjaview.Prelude.Dict.{get, put}
use dayjaview.Domain.Coverage.{sufficient}
use dayjaview.Domain.Reasons.{missing_market_data}

abbrev reference : String → ℕ → StockReference
reference stock_id shares = record {
  stock_id = stock_id;
  effective_for = 12;
  known_at = 90;
  previous_adjusted_close = some (of_count 100);
  listed_shares = some shares;
  free_float_ratio = some (finite false 5 (down 1));
  free_float_validated = true;
  version = "r1";
  corporate_action_resolved = true;
}

abbrev price : String → ℕ → StockMarketObservation
price stock_id value = record {
  stock_id = stock_id;
  market_date = 12;
  observed_at = 300;
  current_price = some (of_count value);
  cumulative_trading_value = none;
  fresh = true;
  trading_halted = false;
  corporate_action_unresolved = false;
}

abbrev theme : ThemeMembershipSnapshot
theme = record {
  theme_id = "theme-1";
  version = "v1";
  effective_from = 5;
  known_at = 50;
  members =
      record { stock_id = "b"; role = core }
      ∷ record { stock_id = "a"; role = core }
      ∷ record { stock_id = "c"; role = core }
      ∷ record { stock_id = "d"; role = related }
      ∷ [];
}

abbrev references : List StockReference
references = reference "a" 50 ∷ reference "b" 25 ∷ reference "c" 25 ∷ reference "d" 10 ∷ []

abbrev even_policy : ThemeCalculationPolicy
even_policy = record theme_calculation_policy_v1 {
  maximum_constituent_weight = finite false 5 (down 1);
}

-- The price of the related stock is observed after the calculation.
abbrev prices : List StockMarketObservation
prices =
    price "a" 110 ∷ price "b" 90 ∷ price "c" 120 ∷ record (price "d" 150) { observed_at = 500 } ∷ []

abbrev metrics : ThemeMetrics
metrics = record {
  calculation_version = "theme-metrics-2026.08.1";
  policy_maturity = backtest_pending;
  membership_version = "v1";
  weighted_return = some (finite false 75 (down 3));
  median_return = some (finite false 1 (down 1));
  advancing_count = some 2;
  valid_count = some 3;
  advancing_ratio =
      some (finite false 666666666666666666666666666666666666666666666666666666666667 (down 60));
  coverage = record {
    status = sufficient;
    core = record {
      observed_count = 3;
      total_count = 3;
      count_ratio = some (of_count 1);
      observed_weight_ratio = some (of_count 1);
    };
    related = record {
      observed_count = 3;
      total_count = 4;
      count_ratio = some (finite false 75 (down 2));
      observed_weight_ratio = none;
    };
  };
  capped_weights =
      record { stock_id = "a"; weight = finite false 5 (down 1) }
      ∷ record { stock_id = "b"; weight = finite false 25 (down 2) }
      ∷ record { stock_id = "c"; weight = finite false 25 (down 2) }
      ∷ [];
  quality_flags = "POINT_IN_TIME_VIOLATION" ∷ [];
  issues =
      record { metric = "constituentData"; reason = missing_market_data; stock_ids = "d" ∷ [] }
      ∷ [];
  reference_versions = "r1" ∷ [];
}

run : calculate_theme_metrics even_policy 12 400 theme references prices ≡ ok metrics
unfolding calculate_theme_metrics get put
run = refl

eligible_for_rank : rank_eligible metrics ≡ true
unfolding rank_eligible
eligible_for_rank = refl

-- The members are known only later.
unknown_members :
    calculate_theme_metrics even_policy 12 40 theme references prices ≡ raised value_error
unfolding calculate_theme_metrics
unknown_members = refl

calculate_theme_metrics-IsRestrained_example :
    IsRestrained even_policy 12 400 theme references prices metrics
calculate_theme_metrics-IsRestrained_example =
    calculate_theme_metrics-IsRestrained even_policy 12 400 theme references prices metrics run
