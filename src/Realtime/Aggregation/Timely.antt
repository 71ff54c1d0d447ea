-- ===== src/Realtime/Aggregation/Timely.antt =====
-- `drain` of packages/realtime/aggregation.py with `calculate_theme_metrics` of
-- packages/calculations/theme_metrics.py, as the aggregator calls it.
use dayjaview.Realtime.Aggregation.{
  DirtyThemeAggregator, ThemeMembershipSnapshot, select, StockReference,
}
use dayjaview.Prelude.{ℕ, some, String, List, ◌≡◌}
use dayjaview.Prelude.Exec.{ok}
use dayjaview.Calculations.Policies.{ThemeCalculationPolicy}
use dayjaview.Realtime.HotState.{HotStateStore}
use dayjaview.Realtime.Aggregation.Drains.{select_references, observe_all}
use dayjaview.Calculations.Metrics.{ThemeMetrics}
use dayjaview.Realtime.Aggregation.Batches.{Drains}
use dayjaview.Domain.Membership.{ThemeMembershipSnapshot, stock_ids}
use dayjaview.Domain.References.{StockReference}
use dayjaview.Calculations.ThemeMetrics.Restrained.{IsRestrained}
use dayjaview.Domain.Market.{StockMarketObservation}
use dayjaview.Realtime.HotState.Checkpoint.{states_for}

module _ (policy : ThemeCalculationPolicy) (hot_state : HotStateStore)
    (a : DirtyThemeAggregator) where
  -- Metrics of a theme at a time: of the members that were selected then, of references of the
  -- aggregator that were selected then, and of the states of the store, none of them known later.
  pub record IsTimely (theme_id : String) (market_date as_of : ℕ) (m : ThemeMetrics) : Type 0 where
    pub membership : ThemeMembershipSnapshot
    pub selected : select theme_id market_date as_of a.catalog ≡ ok (some membership)
    pub references : List StockReference
    pub chosen :
        select_references (stock_ids membership) market_date as_of a.references ≡ ok references
    pub observations : List StockMarketObservation
    pub observed :
        observe_all (states_for market_date (stock_ids membership) hot_state) ≡ ok observations
    pub restrained : IsRestrained policy market_date as_of membership references observations m
