-- ===== src/Calculations/ThemeMetrics/Issues.antt =====
-- The issues of `calculate_theme_metrics` in packages/calculations/theme_metrics.py, and their order.
use Prim.Native.Nat.{Ordering}
use Prim.Native.String.{compare as compare_text, then as thenby}
use text.Mathlib.Text.{is_le}
use dayjaview.Prelude.{
  Bool, Option, none, some, String, String-discrete, List, [], ◌∷◌, ◌++◌, sort_by, text_first,
  unique,
}
use dayjaview.Domain.Reasons.{UnavailableReason, reason_value, empty_membership}
use dayjaview.Domain.Decimal.{Decimal}
use dayjaview.Domain.Membership.{ThemeMember}
use dayjaview.Calculations.Intervals.{sorted_texts}
use dayjaview.Calculations.Metrics.{MetricIssue}
use dayjaview.Calculations.ThemeMetrics.{Issues}

-- The issues that name stocks.
unfoldable pub constituent_issues : Issues → List MetricIssue
unfolding sort_by text_first unique String-discrete
constituent_issues [] = []
constituent_issues ((reason, []) ∷ issues) = constituent_issues issues
constituent_issues ((reason, id ∷ ids) ∷ issues) =
    record { metric = "constituentData"; reason = reason; stock_ids = sorted_texts (id ∷ ids) }
    ∷ constituent_issues issues

abbrev pub missing_weighted : Option Decimal → List ThemeMember → List MetricIssue
missing_weighted (some d) core_ones = []
missing_weighted none [] =
    record { metric = "weightedReturn"; reason = empty_membership; stock_ids = [] } ∷ []
missing_weighted none (m ∷ ms) =
    record {
      metric = "weightedReturn";
      reason = UnavailableReason.insufficient_coverage;
      stock_ids = [];
    }
    ∷ []

abbrev pub missing_median : Option Decimal → List MetricIssue
missing_median (some d) = []
missing_median none =
    record {
      metric = "medianReturn";
      reason = UnavailableReason.insufficient_observations;
      stock_ids = [];
    }
    ∷ []

-- The order of tuples of texts.
unfoldable pub compare_texts : List String → List String → Ordering
compare_texts [] [] = Ordering.eq
compare_texts [] (b ∷ bs) = Ordering.lt
compare_texts (a ∷ as') [] = Ordering.gt
compare_texts (a ∷ as') (b ∷ bs) = thenby (compare_text a b) (compare_texts as' bs)

-- The sort key is the tuple of the metric, the text of the reason and the ids.
unfoldable pub issue_first : MetricIssue → MetricIssue → Bool
unfolding compare_texts
issue_first a b = is_le (
    thenby (compare_text a.metric b.metric) (
      thenby (compare_text (reason_value a.reason) (reason_value b.reason))
        (compare_texts a.stock_ids b.stock_ids)))

unfoldable pub sorted_issues :
    Issues → Option Decimal → Option Decimal → List ThemeMember → List MetricIssue
unfolding constituent_issues sort_by issue_first
sorted_issues issues weighted_return median_return core_ones = sort_by issue_first (
    constituent_issues issues
    ++ (missing_weighted weighted_return core_ones ++ missing_median median_return))
