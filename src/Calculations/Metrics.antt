-- ===== src/Calculations/Metrics.antt =====
-- The records of packages/calculations/theme_metrics.py and the verdict on its coverage.
use dayjaview.Prelude.{
  ℕ, Bool, true, false, not, ◌&&◌, ◌||◌, Option, none, some, String, List, ltb, is_none,
  if◌then◌else◌,
}
use dayjaview.Domain.Coverage.{
  Coverage, CoveragePart, CoverageStatus, sufficient, partial, insufficient,
}
use dayjaview.Domain.Arithmetic.{is_below}
use dayjaview.Domain.Decimal.{Decimal, is_at_most}
use dayjaview.Domain.Reasons.{UnavailableReason}
use dayjaview.Calculations.Policies.{PolicyMaturity, ThemeCalculationPolicy}

pub record MetricIssue : Type 0 where
  pub metric : String
  pub reason : UnavailableReason
  pub stock_ids : List String

pub record CappedWeight : Type 0 where
  pub stock_id : String
  pub weight : Decimal

pub record ThemeMetrics : Type 0 where
  pub calculation_version : String
  pub policy_maturity : PolicyMaturity
  pub membership_version : String
  pub weighted_return : Option Decimal
  pub median_return : Option Decimal
  pub advancing_count : Option ℕ
  pub valid_count : Option ℕ
  pub advancing_ratio : Option Decimal
  pub coverage : Coverage
  pub capped_weights : List CappedWeight
  pub quality_flags : List String
  pub issues : List MetricIssue
  pub reference_versions : List String

abbrev pub is_sufficient : CoverageStatus → Bool
is_sufficient sufficient = true
is_sufficient partial = false
is_sufficient insufficient = false

-- `ThemeMetrics.rank_eligible`
unfoldable pub rank_eligible : ThemeMetrics → Bool
rank_eligible m =
    is_sufficient m.coverage.status
    && not (is_none m.weighted_return)
    && not (is_none m.median_return)
    && not (is_none m.advancing_count)
    && not (is_none m.valid_count)

-- The verdict, where both ratios are known.
abbrev judged : Decimal → Decimal → ThemeCalculationPolicy → CoverageStatus
judged weight_ratio count_ratio p =
    if not (is_below weight_ratio p.sufficient_core_weight_ratio)
      && not (is_below count_ratio p.sufficient_related_count_ratio)
    then sufficient
    else partial

abbrev with_ratios : Option Decimal → Option Decimal → ThemeCalculationPolicy → CoverageStatus
with_ratios none count_ratio p = insufficient
with_ratios (some w) none p = insufficient
with_ratios (some w) (some c) p = judged w c p

unfoldable pub determine_coverage_status :
    CoveragePart → CoveragePart → ℕ → ThemeCalculationPolicy → CoverageStatus
unfolding is_at_most
determine_coverage_status core related total_valid_count p =
    if ltb core.observed_count p.minimum_core_observations
      || ltb total_valid_count p.minimum_total_observations
    then insufficient
    else with_ratios core.observed_weight_ratio related.count_ratio p
