-- ===== src/Tests/Timely.antt =====
-- A drain of packages/realtime/aggregation.py with the metrics that it calculates.
use dayjaview.Prelude.{refl, true, false, [], ◌∷◌, some, none, is_in, ◌≡◌}
use dayjaview.Prelude.Exec.{ok}
use dayjaview.Domain.Decimal.{finite, down}
use dayjaview.Domain.Membership.{core, ThemeMembershipSnapshot, is_selectable}
use dayjaview.Realtime.HotState.{HotStateStore, StateKey-discrete}
use dayjaview.Realtime.Models.{HotStockState}
use dayjaview.Realtime.Aggregation.Drains.{ThemeMetricUpdate, drain}
use dayjaview.Domain.References.{StockReference}
use dayjaview.Calculations.Policies.{
  ThemeCalculationPolicy, theme_calculation_policy_v1, backtest_pending,
}
use dayjaview.Realtime.Aggregation.{DirtyThemeAggregator}
use dayjaview.Calculations.Metrics.{ThemeMetrics}
use dayjaview.Domain.Arithmetic.{of_count}
use dayjaview.Calculations.ThemeMetrics.Theme.{calculate_theme_metrics}
use dayjaview.Domain.Coverage.{CoveragePart, sufficient}
use dayjaview.Prelude.Dict.{get, put}

abbrev chip_theme : ThemeMembershipSnapshot
chip_theme = record {
  theme_id = "theme-1";
  version = "v1";
  effective_from = 10;
  known_at = 100;
  members = record { stock_id = "005930"; role = core } ∷ [];
}

abbrev chip_reference : StockReference
chip_reference = record {
  stock_id = "005930";
  effective_for = 30;
  known_at = 90;
  previous_adjusted_close = some (of_count 100);
  listed_shares = some 50;
  free_float_ratio = some (finite false 5 (down 1));
  free_float_validated = true;
  version = "r1";
  corporate_action_resolved = true;
}

abbrev chip_state : HotStockState
chip_state = record {
  stock_id = "005930";
  market_date = 30;
  version = 1;
  source = "feed";
  source_sequence = 1;
  occurred_at = 400;
  received_at = 410;
  current_price = some (of_count 105);
  cumulative_trading_value = none;
  fresh = true;
  trading_halted = false;
  corporate_action_unresolved = false;
  last_message_id = "m-1";
  lineage = [];
}

abbrev hot : HotStateStore
hot = record {
  states = ((30, "005930"), chip_state) ∷ [];
  processed_messages = [];
  source_cursors = [];
}

abbrev chip_dirty : DirtyThemeAggregator
chip_dirty = record {
  catalog = record { snapshots = chip_theme ∷ []; theme_ids = "theme-1" ∷ [] };
  references = chip_reference ∷ [];
  dirty = (("theme-1", 30), record { theme_id = "theme-1"; market_date = 30; as_of = 500 }) ∷ [];
}

abbrev small_policy : ThemeCalculationPolicy
small_policy = record theme_calculation_policy_v1 {
  minimum_core_observations = 1;
  minimum_total_observations = 1;
}

abbrev whole : CoveragePart
whole = record {
  observed_count = 1;
  total_count = 1;
  count_ratio = some (of_count 1);
  observed_weight_ratio = some (of_count 1);
}

abbrev chip_update : ThemeMetricUpdate ThemeMetrics
chip_update = record {
  theme_id = "theme-1";
  market_date = 30;
  as_of = 500;
  membership_version = "v1";
  metrics = record {
    calculation_version = "theme-metrics-2026.08.1";
    policy_maturity = backtest_pending;
    membership_version = "v1";
    weighted_return = some (finite false 5 (down 2));
    median_return = some (finite false 5 (down 2));
    advancing_count = some 1;
    valid_count = some 1;
    advancing_ratio = some (of_count 1);
    coverage = record {
      status = sufficient;
      core = whole;
      related = record whole { observed_weight_ratio = none };
    };
    capped_weights = record { stock_id = "005930"; weight = of_count 1 } ∷ [];
    quality_flags = [];
    issues = [];
    reference_versions = "r1" ∷ [];
  };
}

run : (drain (calculate_theme_metrics small_policy) hot chip_dirty).0 ≡ ok (chip_update ∷ [])
unfolding drain calculate_theme_metrics get put is_selectable is_in StateKey-discrete
run = refl
