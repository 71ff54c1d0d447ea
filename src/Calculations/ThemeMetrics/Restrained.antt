-- ===== src/Calculations/ThemeMetrics/Restrained.antt =====
-- What the values of `calculate_theme_metrics` in
-- packages/calculations/theme_metrics.py rest on.
use dayjaview.Prelude.{
  refl, ℕ, Bool, false, ◌||◌, Option, none, some, ltb, ◌==◌, if◌then◌else◌, List, [], ◌∷◌, String,
  map, ◌≡◌, ◌≤◌, arith, All, length, sort_by, Bool-cases, inl, sym, ap, subst, ◌∙◌, inr,
}
use dayjaview.Prelude.Exec.{Result, value_error, raised, ok, and_then, and_then-eq-ok, ok-injective}
use dayjaview.Domain.Membership.{ThemeMembershipSnapshot, ThemeMember}
use dayjaview.Calculations.ThemeMetrics.{
  CollectedReturns, StockReference, MetricsInputs, ThemeCalculationPolicy, StockMarketObservation,
  ThemeMember, Dict, ok, Decimal, collect_returns, nothing_collected, index_unique, median_of,
  core_members, uncapitalized, capitalized, observed_core, count_advancing,
}
use dayjaview.Calculations.ThemeMetrics.Theme.{
  calculate_theme_metrics, metrics_for, metrics_of, note_missing, share_of, weighted,
}
use dayjaview.Calculations.Policies.{ThemeCalculationPolicy}
use dayjaview.Domain.References.{StockReference}
use dayjaview.Domain.Market.{StockMarketObservation}
use dayjaview.Calculations.Metrics.{CappedWeight, ThemeMetrics}
use dayjaview.Prelude.Dict.{Dict}
use dayjaview.Domain.Decimal.{Decimal}
use dayjaview.Calculations.ThemeMetrics.Known.{IsReturn, collect_returns-All}
use dayjaview.Domain.Arithmetic.{divide, of_count}
use dayjaview.Calculations.Weights.{CapitalizationInput}
use dayjaview.Calculations.ThemeMetrics.Capitals.{
  IsCapital, WeighedBy, capitalized-All, observed_core-All, weighted-WeighedBy,
}
use dayjaview.Calculations.Turnover.Theme.{member_first}
use dayjaview.Domain.Coverage.{Coverage, from_counts}

-- The numbers of the returns and of those above zero, their ratio and the median.
pub record IsValued (returns : Dict String Decimal) (m : ThemeMetrics) : Type 0 where
  pub counted : m.valid_count ≡ (if length returns == 0 then none else some (length returns))
  pub advanced :
      m.advancing_count
      ≡ (if length returns == 0 then none else some (count_advancing (map (λ e. e.1) returns)))
  pub ratio : m.advancing_ratio ≡ (
      if length returns == 0
      then none
      else some (
          divide 60
            (of_count (count_advancing (map (λ e. e.1) returns)))
            (of_count (length returns))))
  pub at_median : m.median_return ≡ median_of (map (λ e. e.1) returns)

-- The members were known, and so was everything behind the returns and the capitalizations, of which
-- every value of the metrics is calculated.
pub record IsRestrained (policy : ThemeCalculationPolicy) (market_date as_of : ℕ)
    (membership : ThemeMembershipSnapshot) (references : List StockReference)
    (observations : List StockMarketObservation) (m : ThemeMetrics) : Type 0 where
  pub members_known : (membership.effective_from ≤ market_date) × (membership.known_at ≤ as_of)
  pub same_members : m.membership_version ≡ membership.version
  pub returns : Dict String Decimal
  pub each_known : All (λ e. IsReturn market_date as_of references observations e.0 e.1) returns
  pub caps : List CapitalizationInput
  pub caps_known : All (IsCapital market_date as_of references) caps
  pub weighed : WeighedBy policy caps returns m.capped_weights m.weighted_return
  pub valued : IsValued returns m

note_missing-returns :
    (missing : List String) (c : CollectedReturns) → (note_missing missing c).returns ≡ c.returns
note_missing-returns [] c = refl
note_missing-returns (id ∷ ids) c = refl

early : (a b c d : ℕ) → (ltb a b || ltb c d) ≡ false → (b ≤ a) × (d ≤ c)
early a b c d h = (ground arith, ground arith)

metrics_of-IsValued :
    (t : MetricsInputs) (membership : ThemeMembershipSnapshot) (members : List ThemeMember)
    (c : CollectedReturns) (missing : List String) (coverage : Coverage) (observed_count : ℕ)
    (w : List CappedWeight × Option Decimal)
    → IsValued c.returns
        (metrics_of t membership members (note_missing missing c) coverage observed_count w)
metrics_of-IsValued t membership members c missing coverage observed_count w =
    subst
      (λ (r : Dict String Decimal).
        IsValued r
          (metrics_of t membership members (note_missing missing c) coverage observed_count w))
      (note_missing-returns missing c)
      (record { counted = refl; advanced = refl; ratio = refl; at_median = refl })

-- The metrics are calculated of the returns that were collected and the capitalizations of the core
-- members that have one.
metrics_for-parts :
    (t : MetricsInputs) (membership : ThemeMembershipSnapshot) (members : List ThemeMember)
    (m : ThemeMetrics)
    → metrics_for t membership members ≡ ok m
    → let returns = (collect_returns t members nothing_collected).returns in
      let caps = observed_core returns (capitalized t (core_members members)) in
      (m.membership_version ≡ membership.version)
      × WeighedBy t.policy caps returns m.capped_weights m.weighted_return
      × IsValued returns m
unfolding metrics_for
metrics_for-parts t membership members m h =
    let core_ones = core_members members in
    let c = collect_returns t members nothing_collected in
    let missing = uncapitalized t core_ones in
    let caps = capitalized t core_ones in
    let observed = observed_core c.returns caps in
    let (core_part, made, h1) =
      and_then-eq-ok
        (from_counts (length observed) (length core_ones)
          (share_of core_ones missing caps observed))
        _ h in
    let (related_part, made_too, h2) =
      and_then-eq-ok (from_counts (length c.returns) (length members) none) _ h1 in
    let (w, done, h3) = and_then-eq-ok (weighted t.policy missing observed c.returns) _ h2 in
    let last = ok-injective h3 in
    let weighed = weighted-WeighedBy t.policy missing observed c.returns w done in
    subst
      (λ (x : ThemeMetrics).
        (x.membership_version ≡ membership.version)
        × WeighedBy t.policy observed c.returns x.capped_weights x.weighted_return
        × IsValued c.returns x)
      last (refl, weighed, metrics_of-IsValued t membership members c missing _ (length observed) w)

-- There is no look-ahead in the values of the metrics: the members were effective and known; the
-- counts, the ratio, the median and the weighted return are those of returns that are each calculated
-- from a given reference for the day and a given observation on the day, of one stock, both known by
-- the time of the calculation; and the weights are those of capitalizations that are each read from a
-- given reference of the stock for the day, known by then too.
pub calculate_theme_metrics-IsRestrained :
    (policy : ThemeCalculationPolicy) (market_date as_of : ℕ) (membership : ThemeMembershipSnapshot)
    (references : List StockReference) (observations : List StockMarketObservation)
    (m : ThemeMetrics)
    → calculate_theme_metrics policy market_date as_of membership references observations ≡ ok m
    → IsRestrained policy market_date as_of membership references observations m
unfolding calculate_theme_metrics
calculate_theme_metrics-IsRestrained policy market_date as_of membership references observations m
      h =
    elim (Bool-cases (ltb market_date membership.effective_from || ltb as_of membership.known_at)) [
      | inl late ↦
          absurd (
            raised-ne-ok (sym (ap (λ (b : Bool). if b then raised value_error else body) late) ∙ h))
      | inr known ↦
          let h0 = sym (ap (λ (b : Bool). if b then raised value_error else body) known) ∙ h in
          let (by_stock, indexed, h1) =
            and_then-eq-ok (index_unique (λ r. StockReference.stock_id r) references []) _ h0 in
          let (seen, observed, h2) =
            and_then-eq-ok (index_unique (λ o. StockMarketObservation.stock_id o) observations []) _
              h1 in
          let members = sort_by member_first membership.members in
          let (version, weighed, valued) =
            metrics_for-parts
              (record {
                market_date = market_date;
                as_of = as_of;
                references = by_stock;
                observations = seen;
                policy = policy;
              })
              membership members m h2 in
          record {
            members_known =
                early market_date membership.effective_from as_of membership.known_at known;
            same_members = version;
            returns = _;
            each_known =
                collect_returns-All market_date as_of references observations policy by_stock seen
                  indexed observed members nothing_collected tt;
            caps = _;
            caps_known = observed_core-All (IsCapital market_date as_of references) _ _ (
                capitalized-All market_date as_of references policy by_stock seen indexed
                  (core_members members));
            weighed = weighed;
            valued = valued;
          }
    ]
  where
    body : Result ThemeMetrics
    body = and_then (index_unique (λ r. StockReference.stock_id r) references []) (λ by_stock.
        and_then (index_unique (λ o. StockMarketObservation.stock_id o) observations []) (λ seen.
          metrics_for
            (record {
              market_date = market_date;
              as_of = as_of;
              references = by_stock;
              observations = seen;
              policy = policy;
            })
            membership (sort_by member_first membership.members)))

    raised-ne-ok : raised value_error ≡ ok m → ⊥
    raised-ne-ok q = ground arith
