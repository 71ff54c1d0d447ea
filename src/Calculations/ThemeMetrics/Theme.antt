-- ===== src/Calculations/ThemeMetrics/Theme.antt =====
-- `calculate_theme_metrics` of packages/calculations/theme_metrics.py.
use dayjaview.Prelude.{
  ℕ, ◌||◌, Option, none, some, ltb, ◌==◌, if◌then◌else◌, List, [], ◌∷◌, ◌++◌, String,
  String-discrete, map, sort_by, length,
}
use dayjaview.Prelude.Exec.{Result, value_error, raised, ok, and_then}
use dayjaview.Domain.Reasons.{
  QualityFlag, free_float_unavailable, partial_coverage, missing_reference_data,
}
use dayjaview.Domain.Coverage.{CoverageStatus, sufficient, partial, Coverage, from_counts}
use dayjaview.Calculations.Turnover.Theme.{member_first, flag_texts}
use dayjaview.Prelude.Dict.{Dict, get}
use dayjaview.Calculations.ThemeMetrics.{
  MetricsInputs, index_unique, collect_returns, note_issue, calculate_weighted_return, returns_of,
  core_members, capitalized, uncapitalized, observed_core, weight_ratio, count_advancing, median_of,
  nothing_collected, CollectedReturns,
}
use dayjaview.Calculations.ThemeMetrics.Issues.{sorted_issues}
use dayjaview.Calculations.Weights.{
  calculate_capped_weights, check_capitalization, CapitalizationInput,
}
use dayjaview.Domain.Decimal.{Decimal}
use dayjaview.Calculations.Metrics.{CappedWeight, ThemeMetrics, determine_coverage_status}
use dayjaview.Domain.Membership.{ThemeMembershipSnapshot, ThemeMember}
use dayjaview.Domain.References.{StockReference}
use dayjaview.Calculations.Policies.{ThemeCalculationPolicy}
use dayjaview.Domain.Market.{StockMarketObservation}
use dayjaview.Calculations.Intervals.{sorted_texts}
use dayjaview.Domain.Arithmetic.{of_count, divide}

-- The flags and the issues after the capitalizations.
abbrev pub note_missing : List String → CollectedReturns → CollectedReturns
note_missing [] c = c
note_missing (id ∷ ids) c = record c {
  flags = free_float_unavailable ∷ c.flags;
  issues = note_issue missing_reference_data (id ∷ ids) c.issues;
}

abbrev pub coverage_flags : CoverageStatus → List QualityFlag
coverage_flags sufficient = []
coverage_flags partial = partial_coverage ∷ []
coverage_flags CoverageStatus.insufficient = QualityFlag.insufficient_coverage ∷ []

-- The checks of the inputs of the weights.
unfoldable pub check_all : List CapitalizationInput → Result (Unit {0})
unfolding check_capitalization
check_all [] = ok tt
check_all (c ∷ cs) = let rest = check_all cs in and_then (check_capitalization c) (λ checked. rest)

-- The weights and the weighted return, where they can be calculated.
unfoldable pub weighted :
    ThemeCalculationPolicy
    → List String
    → List CapitalizationInput
    → Dict String Decimal
    → Result (List CappedWeight × Option Decimal)
unfolding calculate_capped_weights calculate_weighted_return returns_of check_all
weighted p (id ∷ missing) observed returns = ok ([], none)
weighted p [] observed returns =
    if ltb (length observed) p.minimum_core_observations
    then ok ([], none)
    else and_then (check_all observed) (λ checked.
      and_then (calculate_capped_weights observed p.maximum_constituent_weight) (λ weights.
        and_then (calculate_weighted_return weights (returns_of observed returns))
          (λ sum. ok (weights, some sum))))

-- The versions of the references of the members.
unfoldable pub versions_of : Dict String StockReference → List ThemeMember → List String
unfolding String-discrete
versions_of references [] = []
versions_of references (m ∷ ms) =
    let rest = versions_of references ms in
    elim (get String-discrete m.stock_id references) [ none ↦ rest | some r ↦ r.version ∷ rest ]

abbrev pub count_or_none : ℕ → ℕ → Option ℕ
count_or_none total_returns n = if total_returns == 0 then none else some n

-- The metrics, from what was collected.
abbrev pub metrics_of :
    MetricsInputs
    → ThemeMembershipSnapshot
    → List ThemeMember
    → CollectedReturns
    → Coverage
    → ℕ
    → List CappedWeight × Option Decimal
    → ThemeMetrics
metrics_of t membership members c coverage observed_count (weights, weighted_return) =
    let values = map (λ e. e.1) c.returns in
    let valid : ℕ = length c.returns in
    let advancing : ℕ = count_advancing values in
    let few =
      ltb observed_count t.policy.minimum_core_observations
      || ltb valid t.policy.minimum_total_observations in
    record {
      calculation_version = t.policy.version;
      policy_maturity = t.policy.maturity;
      membership_version = membership.version;
      weighted_return = weighted_return;
      median_return = median_of values;
      advancing_count = count_or_none valid advancing;
      valid_count = count_or_none valid valid;
      advancing_ratio =
          if valid == 0 then none else some (divide 60 (of_count advancing) (of_count valid));
      coverage = coverage;
      capped_weights = weights;
      quality_flags = flag_texts (
          (if few then QualityFlag.insufficient_observations ∷ [] else [])
          ++ (coverage_flags coverage.status ++ c.flags));
      issues = sorted_issues c.issues weighted_return (median_of values) (core_members members);
      reference_versions = sorted_texts (versions_of t.references members);
    }

-- `if core_members and not missing_cap_stock_ids`
abbrev pub share_of :
    List ThemeMember
    → List String
    → List CapitalizationInput
    → List CapitalizationInput
    → Option Decimal
share_of [] missing caps observed = none
share_of (m ∷ ms) missing caps observed = weight_ratio missing caps observed

-- The calculation after the checks, for the members in order.
unfoldable pub metrics_for :
    MetricsInputs → ThemeMembershipSnapshot → List ThemeMember → Result ThemeMetrics
unfolding collect_returns core_members capitalized uncapitalized observed_core weight_ratio
    from_counts determine_coverage_status weighted median_of count_advancing sorted_issues
    versions_of flag_texts
metrics_for t membership members =
    let core_ones = core_members members in
    let c = collect_returns t members nothing_collected in
    let missing = uncapitalized t core_ones in
    let caps = capitalized t core_ones in
    let observed = observed_core c.returns caps in
    let share = share_of core_ones missing caps observed in
    and_then (from_counts (length observed) (length core_ones) share) (λ core_part.
      and_then (from_counts (length c.returns) (length members) none) (λ related_part.
        let status = determine_coverage_status core_part related_part (length c.returns) t.policy in
        let coverage : Coverage = record {
          status = status;
          core = core_part;
          related = related_part;
        } in
        and_then (weighted t.policy missing observed c.returns) (λ w.
          ok (
            metrics_of t membership members (note_missing missing c) coverage (length observed)
              w))))

unfoldable pub calculate_theme_metrics :
    ThemeCalculationPolicy
    → ℕ
    → ℕ
    → ThemeMembershipSnapshot
    → List StockReference
    → List StockMarketObservation
    → Result ThemeMetrics
unfolding index_unique metrics_for sort_by member_first
calculate_theme_metrics policy market_date as_of membership references observations =
    if ltb market_date membership.effective_from || ltb as_of membership.known_at
    then raised value_error
    else and_then (index_unique (λ r. StockReference.stock_id r) references []) (λ by_stock.
      and_then (index_unique (λ o. StockMarketObservation.stock_id o) observations []) (λ seen.
        metrics_for
          (record {
            market_date = market_date;
            as_of = as_of;
            references = by_stock;
            observations = seen;
            policy = policy;
          })
          membership (sort_by member_first membership.members)))
