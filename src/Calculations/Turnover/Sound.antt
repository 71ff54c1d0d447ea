-- ===== src/Calculations/Turnover/Sound.antt =====
-- What stands behind the metrics of `calculate_theme_turnover` in
-- packages/calculations/turnover.py.

use dayjaview.Prelude.{
  refl, ℕ, Bool, true, false, not, Option, none, some, String, ltb, if◌then◌else◌, List, [], ◌∷◌,
  length, ◌≡◌, ◌≤◌, subst, arith, Bool-cases, inl, inr, sym, sort_by, All, is_none, map,
  sort_by-All, le_of_not_ltb,
}
use dayjaview.Prelude.Exec.{ok, ok-injective, and_then-eq-ok}
use dayjaview.Domain.Decimal.{Decimal, is_nonpositive}
use dayjaview.Calculations.Turnover.{
  historical_values, TurnoverInputs, measure_current, measure, StockTurnoverMetric, length,
  StockTradingValueObservation, MemberTurnover, ok, get, flagged, ObservationKey-discrete, measured,
  usable_value, suc, median, unusable_flag, sort_by, is_nonpositive, divide, ThemeTurnoverResult,
  measure_member, QualityFlag, ThemeMembershipSnapshot, is_none,
}
use dayjaview.Domain.Market.{StockTradingValueObservation}
use dayjaview.Prelude.Dict.{get}
use dayjaview.Domain.Membership.{ThemeMembershipSnapshot, ThemeMember}
use dayjaview.Domain.Arithmetic.{divide, total}
use dayjaview.Calculations.Turnover.Theme.{
  measure_members, turnover_of, summarize, member_first, Collected, metric_first, collect_one,
}
use dayjaview.Domain.Reasons.{QualityFlag}
use dayjaview.Calculations.Turnover.Lengths.{length-sort_by}

-- What a metric rests on: a usable value of the stock on the evaluation date, known at the
-- evaluation, and the values of enough earlier days, of which the median is greater than zero.
pub record IsMeasured (t : TurnoverInputs) (m : StockTurnoverMetric) : Type 0 where
  pub current : StockTradingValueObservation
  pub at_date : get ObservationKey-discrete (m.stock_id, t.evaluation_date) t.indexed ≡ some current
  pub known : usable_value t.evaluation_at (some current) ≡ some m.current_trading_value
  pub values : List Decimal
  pub from_history : historical_values t m.stock_id t.history_dates ≡ ok values
  pub counted : m.observation_count ≡ length values
  pub enough : t.policy.minimum_observations ≤ m.observation_count
  pub at_median : m.baseline_median ≡ median values
  pub positive : is_nonpositive m.baseline_median ≡ false
  pub divided : m.multiple ≡ divide 60 m.current_trading_value m.baseline_median

-- A predicate of the metric that a member may come to.
abbrev Measured : (StockTurnoverMetric → Type 0) → MemberTurnover → Type 0
Measured P (flagged flag) = Unit {0}
Measured P (measured metric) = P metric

measure-Measured :
    (t : TurnoverInputs) (stock_id : String) (current : StockTradingValueObservation)
    (value : Decimal) (values : List Decimal)
    → get ObservationKey-discrete (stock_id, t.evaluation_date) t.indexed ≡ some current
    → usable_value t.evaluation_at (some current) ≡ some value
    → historical_values t stock_id t.history_dates ≡ ok values
    → Measured (IsMeasured t) (measure t.policy.minimum_observations stock_id value values)
unfolding measure
measure-Measured t stock_id current value values at known found =
    elim (Bool-cases (ltb (length values) t.policy.minimum_observations)) [
      | inl few ↦ rw (few) tt
      | inr enough ↦ rw (enough) (elim (Bool-cases (is_nonpositive (median values))) [
        | inl none_left ↦ rw (none_left) tt
        | inr positive ↦ rw (positive) (record {
          current = current;
          at_date = at;
          known = known;
          values = values;
          from_history = found;
          counted = refl;
          enough = le_of_not_ltb (length values) t.policy.minimum_observations enough;
          at_median = refl;
          positive = positive;
          divided = refl;
        })
      ])
    ]

measure_current-Measured :
    (t : TurnoverInputs) (stock_id : String) (o : Option StockTradingValueObservation)
    (v : Option Decimal) (one : MemberTurnover)
    → get ObservationKey-discrete (stock_id, t.evaluation_date) t.indexed ≡ o
    → usable_value t.evaluation_at o ≡ v
    → measure_current t stock_id o v ≡ ok one
    → Measured (IsMeasured t) one
unfolding measure_current
measure_current-Measured t stock_id o none one at known h =
    subst (Measured (IsMeasured t)) {x = flagged (unusable_flag o)} (ok-injective h) tt
measure_current-Measured t stock_id none (some value) one at known h = absurd (never (sym known))
  where
    never : some value ≡ usable_value t.evaluation_at none → ⊥
    never q = unfold usable_value in ground arith
measure_current-Measured t stock_id (some o) (some value) one at known h =
    let (values, found, h1) = and_then-eq-ok (historical_values t stock_id t.history_dates) _ h in
    subst (Measured (IsMeasured t)) (ok-injective h1)
      (measure-Measured t stock_id o value values at known found)

measure_members-All :
    (t : TurnoverInputs) (ms : List ThemeMember) (c : Collected)
    → measure_members t ms ≡ ok c
    → All (IsMeasured t) c.metrics × (length c.metrics ≤ length ms)
unfolding measure_members measure_member
measure_members-All t [] c h =
    subst (λ (c : Collected). All (IsMeasured t) c.metrics × (length c.metrics ≤ 0))
      (ok-injective h) (tt, omega arith)
measure_members-All t (m ∷ ms) c h =
    let o = get ObservationKey-discrete (m.stock_id, t.evaluation_date) t.indexed in
    let (one, measured_one, h1) = and_then-eq-ok (measure_member t m.stock_id) _ h in
    let (rest, others, h2) = and_then-eq-ok (measure_members t ms) _ h1 in
    let (sound, short) = measure_members-All t ms rest others in
    subst (λ (c : Collected). All (IsMeasured t) c.metrics × (length c.metrics ≤ suc (length ms)))
      (ok-injective h2)
      (collected one rest sound short (
        measure_current-Measured t m.stock_id o (usable_value t.evaluation_at o) one refl refl
          measured_one))
  where
    collected :
        (one : MemberTurnover) (c : Collected)
        → All (IsMeasured t) c.metrics
        → length c.metrics ≤ length ms
        → Measured (IsMeasured t) one
        → All (IsMeasured t) (collect_one one c).metrics
          × (length (collect_one one c).metrics ≤ suc (length ms))
    collected (flagged flag) c sound short q = (sound, omega (arith, short))
    collected (measured metric) c sound short q = ((q, sound), omega (arith, short))

-- The numbers of a result and what they rest on.
pub record IsSound (t : TurnoverInputs) (r : ThemeTurnoverResult) : Type 0 where
  pub metrics_sound : All (IsMeasured t) r.stock_metrics
  pub valid_counted : r.valid_count ≡ length r.stock_metrics
  pub valid_bounded : r.valid_count ≤ r.total_count
  pub either : is_none r.turnover_multiple ≡ not (is_none r.unavailable_reason)

summarize-IsSound :
    (t : TurnoverInputs) (version : String) (total_count : ℕ) (flags : List QualityFlag)
    (ms : List StockTurnoverMetric)
    → All (IsMeasured t) ms
    → length ms ≤ total_count
    → IsSound t (summarize t.policy version total_count flags ms)
unfolding summarize
summarize-IsSound t version total_count flags [] h short = record {
  metrics_sound = tt;
  valid_counted = refl;
  valid_bounded = omega arith;
  either = refl;
}
summarize-IsSound t version total_count flags (m ∷ ms) h short = record {
  metrics_sound = h;
  valid_counted = refl;
  valid_bounded = short;
  either =
      both _ _
        (is_nonpositive (total 28 (map (λ x. StockTurnoverMetric.baseline_median x) (m ∷ ms))));
}
  where
    both :
        {A B : Type 0} (a : A) (b : B) (empty : Bool)
        → is_none (if empty then none else some a) ≡ not (is_none (if empty then some b else none))
    both a b true = refl
    both a b false = refl

pub turnover_of-IsSound :
    (t : TurnoverInputs) (o : Option ThemeMembershipSnapshot) (r : ThemeTurnoverResult)
    → turnover_of t o ≡ ok r
    → IsSound t r
unfolding turnover_of
turnover_of-IsSound t none r h = subst (IsSound t) (ok-injective h) (record {
  metrics_sound = tt;
  valid_counted = refl;
  valid_bounded = omega arith;
  either = refl;
})
turnover_of-IsSound t (some membership) r h =
    let ms = sort_by member_first membership.members in
    let (c, found, h1) = and_then-eq-ok (measure_members t ms) _ h in
    let (sound, short) = measure_members-All t ms c found in
    let same = length-sort_by member_first membership.members in
    let as_many = length-sort_by metric_first c.metrics in
    subst (IsSound t) (ok-injective h1) (
      summarize-IsSound t membership.version (length membership.members) c.flags
        (sort_by metric_first c.metrics) (sort_by-All metric_first (IsMeasured t) c.metrics sound)
        (omega (arith, same, short, as_many)))
