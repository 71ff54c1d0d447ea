-- ===== src/Calculations/Turnover/Report.antt =====
-- The result of `calculate_theme_turnover` of packages/calculations/turnover.py, by the observations
-- that were given.
use dayjaview.Prelude.{
  ℕ, true, false, Option, some, none-ne-some, String, List, [], ◌∷◌, Any, ◌≡◌, ◌≤◌, length, ◌⊎◌,
  Bool-cases, All, is_none, inl, ◌==◌, not, inr, subst, arith, sym, ◌∙◌, ite, ap, All-imp,
}
use dayjaview.Prelude.Exec.{ok, and_then-eq-ok, ok-injective}
use dayjaview.Domain.Membership.{ThemeMembershipSnapshot, select_membership_snapshot}
use dayjaview.Calculations.Turnover.{
  index_observations, ObservationKey, Observations, TurnoverInputs, median, SameTimeBaselinePolicy,
  StockTurnoverMetric, usable_value, ok, Decimal, length, ThemeTurnoverResult, get, is_nonpositive,
  put, ObservationKey-discrete, divide, is_none, not, validate_trading_days,
  select_membership_snapshot, ite,
}
use dayjaview.Domain.Market.{StockTradingValueObservation}
use dayjaview.Calculations.Policies.{SameTimeBaselinePolicy}
use dayjaview.Calculations.Turnover.Theme.{calculate_theme_turnover, turnover_inputs}
use dayjaview.Domain.Decimal.{Decimal, is_nonpositive}
use dayjaview.Calculations.Turnover.Sound.{turnover_of-IsSound, IsMeasured}
use dayjaview.Prelude.Dict.{get, put, get-empty, get-put}
use dayjaview.Domain.Arithmetic.{divide}
use dayjaview.Realtime.Aggregation.{has_member}
use dayjaview.Calculations.Turnover.Earlier.{
  IsEarlier, IsPast, historical_values-IsPast, validate_trading_days-IsEarlier,
}
use dayjaview.Calculations.Turnover.Lengths.{historical_values-length, validate_trading_days-length}

-- An observation of the given ones, of the minute, under its own stock and day.
abbrev Given :
    ℕ → List StockTradingValueObservation → ObservationKey → StockTradingValueObservation → Type 0
Given time_bucket os key o =
    Any (λ x. x ≡ o) os × ((o.stock_id, o.market_date) ≡ key) × (o.time_bucket ≡ time_bucket)

index_step :
    (time_bucket : ℕ) (o : StockTradingValueObservation) (os : List StockTradingValueObservation)
    (indexed r : Observations)
    → index_observations time_bucket (o ∷ os) indexed ≡ ok r
    → (index_observations time_bucket os indexed ≡ ok r)
      ⊎ ((index_observations time_bucket os
              (put ObservationKey-discrete (o.stock_id, o.market_date) o indexed)
            ≡ ok r)
          × (o.time_bucket ≡ time_bucket))
unfolding index_observations
index_step time_bucket o os indexed r h = elim (Bool-cases (o.time_bucket == time_bucket)) [
  | inr other ↦ inl (ground arith)
  | inl same ↦ inr (ground arith, ground arith)
]

index-Given :
    (time_bucket : ℕ) (os : List StockTradingValueObservation) (indexed r : Observations)
    (key : ObservationKey) (o : StockTradingValueObservation)
    → index_observations time_bucket os indexed ≡ ok r
    → get ObservationKey-discrete key r ≡ some o
    → (get ObservationKey-discrete key indexed ≡ some o) ⊎ Given time_bucket os key o
unfolding index_observations
index-Given time_bucket [] indexed r key o h found =
    inl (subst (λ d. get ObservationKey-discrete key d ≡ some o) (sym (ok-injective h)) found)
index-Given time_bucket (x ∷ os) indexed r key o h found =
    elim (index_step time_bucket x os indexed r h) [
      | inl skipped ↦ elim (index-Given time_bucket os indexed r key o skipped found) [
        | inl before ↦ inl before
        | inr (at, keyed, bucket) ↦ inr (inr at, keyed, bucket)
      ]
      | inr (taken, same) ↦ elim (index-Given time_bucket os _ r key o taken found) [
        | inr (at, keyed, bucket) ↦ inr (inr at, keyed, bucket)
        | inl new ↦
            put_given (ObservationKey-discrete (x.stock_id, x.market_date) key) same (
              sym (get-put ObservationKey-discrete (x.stock_id, x.market_date) key x indexed) ∙ new)
      ]
    ]
  where
    put_given :
        (same_key : Dec ((x.stock_id, x.market_date) ≡ key))
        → x.time_bucket ≡ time_bucket
        → ite same_key (some x) (get ObservationKey-discrete key indexed) ≡ some o
        → (get ObservationKey-discrete key indexed ≡ some o) ⊎ Given time_bucket (x ∷ os) key o
    put_given (yes same_key) bucket q =
        let same : x ≡ o = ground arith in
        inr (
          inl same,
          subst
              (λ y.
                (
                  StockTradingValueObservation.stock_id y,
                  StockTradingValueObservation.market_date y,
                )
                ≡ key)
              same same_key,
          subst (λ y. StockTradingValueObservation.time_bucket y ≡ time_bucket) same bucket,
        )
    put_given (no other) bucket q = inl q

module _ (theme_id : String) (evaluation_date evaluation_at time_bucket : ℕ) (trading_days : List ℕ)
    (snapshots : List ThemeMembershipSnapshot) (observations : List StockTradingValueObservation)
    (policy : SameTimeBaselinePolicy) where
  -- An observation that says something of the trading value: comparable, fresh, of a stock that was
  -- neither halted nor in an unresolved corporate action.
  pub record IsUsable (o : StockTradingValueObservation) (v : Decimal) : Type 0 where
    pub comparable : o.comparable ≡ true
    pub fresh : o.fresh ≡ true
    pub not_halted : o.trading_halted ≡ false
    pub resolved : o.corporate_action_unresolved ≡ false
    pub valued : o.cumulative_trading_value ≡ some v

  -- One of the given observations, of the stock, the day and the minute, that is usable with the
  -- value.
  pub record IsValueOn (stock_id : String) (day : ℕ) (o : StockTradingValueObservation)
      (v : Decimal) : Type 0 where
    pub given : Any (λ x. x ≡ o) observations
    pub same_stock : o.stock_id ≡ stock_id
    pub same_date : o.market_date ≡ day
    pub same_minute : o.time_bucket ≡ time_bucket
    pub usable : IsUsable o v

  -- The value of an earlier trading day, on which the stock was a member of the theme as far as that
  -- was known at the observation.
  pub record IsHistory (stock_id : String) (v : Decimal) : Type 0 where
    pub day : ℕ
    pub earlier : IsEarlier trading_days evaluation_date day
    pub past : StockTradingValueObservation
    pub value_on : IsValueOn stock_id day past v
    pub membership : Option ThemeMembershipSnapshot
    pub chosen : select_membership_snapshot theme_id day past.observed_at snapshots ≡ ok membership
    pub is_member : has_member stock_id membership ≡ true

  -- What a metric of the result rests on: a usable observation of the evaluation date, made before
  -- the evaluation, and a positive median of values of earlier days, no fewer than the policy asks
  -- for and no more than it looks back.
  pub record RestsOn (m : StockTurnoverMetric) : Type 0 where
    pub current : StockTradingValueObservation
    pub value_on : IsValueOn m.stock_id evaluation_date current m.current_trading_value
    pub in_time : current.observed_at ≤ evaluation_at
    pub history : List Decimal
    pub each_earlier : All (IsHistory m.stock_id) history
    pub counted : m.observation_count ≡ length history
    pub at_median : m.baseline_median ≡ median history
    pub enough : policy.minimum_observations ≤ m.observation_count
    pub bounded : m.observation_count ≤ policy.lookback_trading_days
    pub positive : is_nonpositive m.baseline_median ≡ false
    pub divided : m.multiple ≡ divide 60 m.current_trading_value m.baseline_median

  usable_lem :
      (at : ℕ) (o : StockTradingValueObservation) (v : Decimal)
      → usable_value at (some o) ≡ some v
      → (o.observed_at ≤ at) × IsUsable o v
  unfolding usable_value
  usable_lem at o v h = (
    ground arith,
    record {
      comparable = ground arith;
      fresh = ground arith;
      not_halted = ground arith;
      resolved = ground arith;
      valued = ground arith;
    },
  )

  module _ (days : List ℕ) (indexed : Observations)
      (made : index_observations time_bucket observations [] ≡ ok indexed) where
    abbrev inputs : TurnoverInputs
    inputs =
        turnover_inputs theme_id evaluation_date evaluation_at time_bucket trading_days snapshots
          observations policy days indexed

    IsValueOn-indexed :
        (stock_id : String) (day at : ℕ) (o : StockTradingValueObservation) (v : Decimal)
        → get ObservationKey-discrete (stock_id, day) indexed ≡ some o
        → usable_value at (some o) ≡ some v
        → IsValueOn stock_id day o v
    IsValueOn-indexed stock_id day at o v found usable =
        elim (index-Given time_bucket observations [] indexed (stock_id, day) o made found) [
          | inl empty ↦
              absurd
                (none-ne-some (sym (get-empty ObservationKey-discrete (stock_id, day)) ∙ empty))
          | inr (given, keyed, bucket) ↦ record {
            given = given;
            same_stock = ap (λ (k : ObservationKey). k.0) keyed;
            same_date = ap (λ (k : ObservationKey). k.1) keyed;
            same_minute = bucket;
            usable = (usable_lem at o v usable).1;
          }
        ]

    IsPast-IsHistory :
        (stock_id : String) (v : Decimal)
        → All (IsEarlier trading_days evaluation_date) days
        → IsPast inputs stock_id days v
        → IsHistory stock_id v
    IsPast-IsHistory stock_id v before q = record {
      day = q.date;
      earlier = All-at days before q.on_date;
      past = q.past;
      value_on = IsValueOn-indexed stock_id q.date q.past.observed_at q.past v q.at_date q.usable;
      membership = q.membership;
      chosen = q.chosen;
      is_member = q.is_member;
    }
      where
        All-at :
            (ds : List ℕ)
            → All (IsEarlier trading_days evaluation_date) ds
            → Any (λ d. d ≡ q.date) ds
            → IsEarlier trading_days evaluation_date q.date
        All-at [] h here = absurd here
        All-at (d ∷ ds) h (inl same) = subst (IsEarlier trading_days evaluation_date) same h.0
        All-at (d ∷ ds) h (inr later) = All-at ds h.1 later

    rests_on :
        (m : StockTurnoverMetric)
        → length days ≤ policy.lookback_trading_days
        → All (IsEarlier trading_days evaluation_date) days
        → IsMeasured inputs m
        → RestsOn m
    rests_on m short before q = record {
      current = q.current;
      value_on =
          IsValueOn-indexed m.stock_id evaluation_date evaluation_at q.current
            m.current_trading_value q.at_date q.known;
      in_time = (usable_lem evaluation_at q.current m.current_trading_value q.known).0;
      history = q.values;
      each_earlier =
          All-imp q.values (λ v p. IsPast-IsHistory m.stock_id v before p)
            (historical_values-IsPast inputs m.stock_id days q.values q.from_history);
      counted = q.counted;
      at_median = q.at_median;
      enough = q.enough;
      bounded = omega (
        arith,
        q.counted,
        historical_values-length inputs m.stock_id days q.values q.from_history,
        short,
      );
      positive = q.positive;
      divided = q.divided;
    }

  -- Every metric of a result divides the value of a usable observation of the evaluation date, made
  -- before the evaluation, by a positive median of usable values of the same minute on earlier
  -- trading days, on which the stock was a member; they are no fewer than the policy asks for and no
  -- more than it looks back. The
  -- members that count are those with a metric, and no more than the theme has. There is a multiple
  -- of the theme just where there is no reason against it.
  pub calculate_theme_turnover-RestsOn :
      (r : ThemeTurnoverResult)
      → calculate_theme_turnover theme_id evaluation_date evaluation_at time_bucket trading_days
          snapshots observations policy
        ≡ ok r
      → All RestsOn r.stock_metrics
        × (r.valid_count ≡ length r.stock_metrics)
        × (r.valid_count ≤ r.total_count)
        × (is_none r.turnover_multiple ≡ not (is_none r.unavailable_reason))
  unfolding calculate_theme_turnover
  calculate_theme_turnover-RestsOn r h =
      let (history, checked, h1) =
        and_then-eq-ok
          (validate_trading_days trading_days evaluation_date policy.lookback_trading_days) _ h in
      let (indexed, made, h2) =
        and_then-eq-ok (index_observations time_bucket observations []) _ h1 in
      let (o, chosen, h3) =
        and_then-eq-ok (select_membership_snapshot theme_id evaluation_date evaluation_at snapshots)
          _ h2 in
      let sound = turnover_of-IsSound _ o r h3 in
      let short =
        validate_trading_days-length trading_days evaluation_date policy.lookback_trading_days
          history checked in
      let before =
        validate_trading_days-IsEarlier trading_days evaluation_date policy.lookback_trading_days
          history checked in
      (
        All-imp r.stock_metrics (λ m q. rests_on history indexed made m short before q)
            sound.metrics_sound,
        sound.valid_counted,
        sound.valid_bounded,
        sound.either,
      )
