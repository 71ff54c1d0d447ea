-- ===== src/Calculations/AttentionDay.antt =====
-- `evaluate_attention_day` of packages/calculations/attention.py: the signal of one trading day.
use dayjaview.Prelude.{
  ℕ, Bool, true, false, not, ◌&&◌, ◌||◌, Option, none, some, String, String-discrete, ite, List, [],
  ◌∷◌, ltb, leb, is_none, if◌then◌else◌, ◌==◌, ◌+◌, ◌≡◌, arith, ◌≤◌, refl, sym, ap, ◌∙◌,
  some-injective, Option-cases, inr, inl, le_of_not_ltb, le_of_leb,
}
use dayjaview.Domain.Reasons.{UnavailableReason}
use dayjaview.Domain.Arithmetic.{is_below, divide, of_count}
use dayjaview.Domain.Decimal.{is_at_most, Decimal}
use dayjaview.Domain.Coverage.{CoverageStatus, sufficient, partial}
use dayjaview.Calculations.Metrics.{ThemeMetrics, is_sufficient}
use dayjaview.Calculations.Turnover.{StockTurnoverMetric, ThemeTurnoverResult}
use dayjaview.Calculations.Policies.{AttentionPolicy}
use dayjaview.Calculations.Intervals.{AttentionDaySignal}

abbrev is_version : Option String → String → Bool
is_version none version = false
is_version (some v) version = ite (String-discrete v version) true false

-- Why the day cannot be judged, if it cannot.
unfoldable pub day_reason :
    ThemeMetrics → ThemeTurnoverResult → AttentionPolicy → Option UnavailableReason
day_reason m t p =
    if not (is_version t.membership_version m.membership_version)
    then some UnavailableReason.membership_version_mismatch
    else if not (is_sufficient m.coverage.status)
    then some UnavailableReason.insufficient_coverage
    else if is_none t.turnover_multiple
        || is_none m.weighted_return
        || ltb t.valid_count p.minimum_valid_members
    then some UnavailableReason.insufficient_observations
    else none

-- How many stocks reach the threshold.
unfoldable pub high_interest : Decimal → List StockTurnoverMetric → ℕ
unfolding is_at_most
high_interest threshold [] = 0
high_interest threshold (m ∷ ms) =
    let rest = high_interest threshold ms in
    if not (is_below m.multiple threshold) then rest + 1 else rest

abbrev at_least : Option Decimal → Decimal → Bool
at_least none threshold = false
at_least (some d) threshold = not (is_below d threshold)

-- `turnover.valid_count or None`
abbrev count_or_none : ℕ → Option ℕ
count_or_none n = if n == 0 then none else some n

-- The signal of a day that cannot be judged.
abbrev pub unknown_day :
    ℕ
    → ThemeMetrics
    → ThemeTurnoverResult
    → AttentionPolicy
    → UnavailableReason
    → AttentionDaySignal
unknown_day market_date m t p reason = record {
  market_date = market_date;
  is_attention = none;
  membership_version = t.membership_version;
  calculation_version = m.calculation_version;
  baseline_version = t.baseline_version;
  attention_policy_version = p.version;
  turnover_multiple = t.turnover_multiple;
  high_interest_count = none;
  valid_count = count_or_none t.valid_count;
  high_interest_ratio = none;
  weighted_return = m.weighted_return;
  unavailable_reason = some reason;
}

-- The four tests of a day, by its number of stocks of high interest and their share.
unfoldable pub has_attention :
    ThemeMetrics → ThemeTurnoverResult → AttentionPolicy → ℕ → Decimal → Bool
unfolding is_at_most
has_attention m t p count ratio =
    at_least t.turnover_multiple p.turnover_multiple_threshold
    && leb p.minimum_high_interest_stocks count
    && not (is_below ratio p.spread_ratio_threshold)
    && at_least m.weighted_return p.weighted_return_threshold

abbrev pub judged_day :
    ℕ → ThemeMetrics → ThemeTurnoverResult → AttentionPolicy → AttentionDaySignal
judged_day market_date m t p =
    let count = high_interest p.stock_multiple_threshold t.stock_metrics in
    let ratio = divide 60 (of_count count) (of_count t.valid_count) in
    record {
      market_date = market_date;
      is_attention = some (has_attention m t p count ratio);
      membership_version = t.membership_version;
      calculation_version = m.calculation_version;
      baseline_version = t.baseline_version;
      attention_policy_version = p.version;
      turnover_multiple = t.turnover_multiple;
      high_interest_count = some count;
      valid_count = some t.valid_count;
      high_interest_ratio = some ratio;
      weighted_return = m.weighted_return;
      unavailable_reason = none;
    }

abbrev pub signal_of :
    ℕ
    → ThemeMetrics
    → ThemeTurnoverResult
    → AttentionPolicy
    → Option UnavailableReason
    → AttentionDaySignal
signal_of market_date m t p (some reason) = unknown_day market_date m t p reason
signal_of market_date m t p none = judged_day market_date m t p

unfoldable pub evaluate_attention_day :
    ℕ → ThemeMetrics → ThemeTurnoverResult → AttentionPolicy → AttentionDaySignal
unfolding day_reason high_interest has_attention divide
evaluate_attention_day market_date m t p = signal_of market_date m t p (day_reason m t p)

-- The members of the same version, with coverage and with every threshold reached: the multiple of
-- the theme, the number of stocks of high interest, their share, and the return.
pub record IsAttentive (m : ThemeMetrics) (t : ThemeTurnoverResult) (p : AttentionPolicy)
    : Type 0 where
  pub same_members : is_version t.membership_version m.membership_version ≡ true
  pub is_covered : m.coverage.status ≡ sufficient
  pub members_counted : p.minimum_valid_members ≤ t.valid_count
  pub turnover : at_least t.turnover_multiple p.turnover_multiple_threshold ≡ true
  pub stocks :
      p.minimum_high_interest_stocks ≤ high_interest p.stock_multiple_threshold t.stock_metrics
  pub spread :
      is_below
        (divide 60
          (of_count (high_interest p.stock_multiple_threshold t.stock_metrics))
          (of_count t.valid_count))
        p.spread_ratio_threshold
      ≡ false
  pub return : at_least m.weighted_return p.weighted_return_threshold ≡ true

sufficient_lem : (s : CoverageStatus) → is_sufficient s ≡ true → s ≡ sufficient
sufficient_lem sufficient h = refl
sufficient_lem partial h = ground arith
sufficient_lem CoverageStatus.insufficient h = ground arith

day_known :
    (m : ThemeMetrics) (t : ThemeTurnoverResult) (p : AttentionPolicy)
    → day_reason m t p ≡ none
    → (is_version t.membership_version m.membership_version ≡ true)
      × (is_sufficient m.coverage.status ≡ true)
      × (ltb t.valid_count p.minimum_valid_members ≡ false)
unfolding day_reason
day_known m t p h = (ground arith, ground arith, ground arith)

attention_tests :
    (m : ThemeMetrics) (t : ThemeTurnoverResult) (p : AttentionPolicy) (count : ℕ) (ratio : Decimal)
    → has_attention m t p count ratio ≡ true
    → (at_least t.turnover_multiple p.turnover_multiple_threshold ≡ true)
      × (leb p.minimum_high_interest_stocks count ≡ true)
      × (is_below ratio p.spread_ratio_threshold ≡ false)
      × (at_least m.weighted_return p.weighted_return_threshold ≡ true)
unfolding has_attention
attention_tests m t p count ratio h = (ground arith, ground arith, ground arith, ground arith)

-- A day of attention is one of a theme that was observed well enough, and reached every threshold.
pub evaluate_attention_day-IsAttentive :
    (market_date : ℕ) (m : ThemeMetrics) (t : ThemeTurnoverResult) (p : AttentionPolicy)
    → (evaluate_attention_day market_date m t p).is_attention ≡ some true
    → IsAttentive m t p
unfolding evaluate_attention_day
evaluate_attention_day-IsAttentive market_date m t p h = elim (Option-cases (day_reason m t p)) [
  | inr (reason, unknown) ↦ absurd (never reason unknown)
  | inl known ↦
      let (same, well, counted) = day_known m t p known in
      let (turnover, stocks, spread, return) =
        attention_tests m t p (high_interest p.stock_multiple_threshold t.stock_metrics)
          (divide 60 (of_count (high_interest p.stock_multiple_threshold t.stock_metrics))
            (of_count t.valid_count))
          (tested known) in
      record {
        same_members = same;
        is_covered = sufficient_lem m.coverage.status well;
        members_counted = le_of_not_ltb t.valid_count p.minimum_valid_members counted;
        turnover = turnover;
        stocks =
            le_of_leb p.minimum_high_interest_stocks
              (high_interest p.stock_multiple_threshold t.stock_metrics) stocks;
        spread = spread;
        return = return;
      }
]
  where
    never : (reason : UnavailableReason) → day_reason m t p ≡ some reason → ⊥
    never reason q =
        none-ne-some_true
          (sym (ap (λ o. AttentionDaySignal.is_attention (signal_of market_date m t p o)) q) ∙ h)
      where
        none-ne-some_true : none ≡ some true → ⊥
        none-ne-some_true q = ground arith

    tested :
        day_reason m t p ≡ none
        → has_attention m t p (high_interest p.stock_multiple_threshold t.stock_metrics) (
            divide 60
              (of_count (high_interest p.stock_multiple_threshold t.stock_metrics))
              (of_count t.valid_count))
          ≡ true
    tested q =
        some-injective
          (sym (ap (λ o. AttentionDaySignal.is_attention (signal_of market_date m t p o)) q) ∙ h)
