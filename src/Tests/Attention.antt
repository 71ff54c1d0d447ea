-- ===== src/Tests/Attention.antt =====
-- The timeline of packages/calculations/attention.py at concrete signals.
use dayjaview.Prelude.{
  refl, ℕ, Bool, true, false, List, [], ◌∷◌, Option, some, none, Any, All, String-discrete, ◌≡◌,
  is_in, inr, without, inl, ℕ_discrete, insert_by,
}
use dayjaview.Prelude.Exec.{ok, raised, value_error}
use dayjaview.Domain.Reasons.{
  no_prior_attention_interval, incomplete_attention_history, UnavailableReason,
}
use dayjaview.Calculations.Intervals.{AttentionDaySignal, AttentionTimeline, AttentionInterval}
use dayjaview.Calculations.Attention.{build_attention_timeline}
use dayjaview.Calculations.Policies.{
  check_attention_policy, AttentionPolicy, attention_policy_v1, backtest_pending,
}
use dayjaview.Calculations.Attention.Order.{InOrder}
use dayjaview.Calculations.Attention.Absence.{IsAttested}
use dayjaview.Calculations.Attention.Timeline.{build_attention_timeline-InOrder}
use dayjaview.Calculations.Attention.Cover.{Spans, build_attention_timeline-Spans}
use dayjaview.Prelude.Dict.{get, put}
use dayjaview.Calculations.Attention.Evidence.{build_attention_timeline-IsAttested}

abbrev two_days : AttentionPolicy
two_days = record attention_policy_v1 { close_after_absent_trading_days = 2 }

two_days_valid : check_attention_policy two_days ≡ ok tt
unfolding check_attention_policy String-discrete
two_days_valid = refl

abbrev signal : ℕ → Option Bool → AttentionDaySignal
signal day attends = record {
  market_date = day;
  is_attention = attends;
  membership_version = some "members-1";
  calculation_version = "theme-metrics-2026.08.1";
  baseline_version = "same-time-attention-60d-2026.08.1";
  attention_policy_version = "attention-interval-2026.08.1";
  turnover_multiple = none;
  high_interest_count = none;
  valid_count = none;
  high_interest_ratio = none;
  weighted_return = none;
  unavailable_reason = none;
}

-- The fifth day has no signal, and the seventh one that does not know.
abbrev signals : List AttentionDaySignal
signals =
    signal 1 (some true)
    ∷ signal 2 (some true)
    ∷ signal 3 (some false)
    ∷ signal 4 (some false)
    ∷ signal 6 (some true)
    ∷ signal 7 none
    ∷ signal 8 (some true)
    ∷ []

abbrev days : List ℕ
days = 1 ∷ 2 ∷ 3 ∷ 4 ∷ 5 ∷ 6 ∷ 7 ∷ 8 ∷ []

abbrev interval : ℕ → ℕ → Option ℕ → UnavailableReason → AttentionInterval
interval first last closed reason = record {
  first_attention_date = first;
  last_attention_date = last;
  closed_confirmation_date = closed;
  gap_trading_days = none;
  gap_unavailable_reason = some reason;
  membership_versions = "members-1" ∷ [];
  calculation_versions = "theme-metrics-2026.08.1" ∷ [];
  baseline_versions = "same-time-attention-60d-2026.08.1" ∷ [];
  attention_policy_version = "attention-interval-2026.08.1";
}

abbrev timeline : AttentionTimeline
timeline = record {
  policy_version = "attention-interval-2026.08.1";
  policy_maturity = backtest_pending;
  intervals =
      interval 1 2 (some 4) no_prior_attention_interval
      ∷ interval 6 8 none incomplete_attention_history
      ∷ [];
}

built : build_attention_timeline two_days signals days ≡ ok timeline
unfolding build_attention_timeline get put is_in without String-discrete ℕ_discrete insert_by
built = refl

-- The days are not in order.
refused : build_attention_timeline two_days signals (2 ∷ 1 ∷ []) ≡ raised value_error
unfolding build_attention_timeline get put is_in without String-discrete ℕ_discrete insert_by
refused = refl

build_attention_timeline-InOrder_example : InOrder 0 timeline.intervals
build_attention_timeline-InOrder_example =
    build_attention_timeline-InOrder two_days signals days timeline built

build_attention_timeline-Spans_example : Any (Spans 8) timeline.intervals
build_attention_timeline-Spans_example =
    build_attention_timeline-Spans two_days signals days timeline (signal 8 (some true)) built
      (inr (inr (inr (inr (inr (inr (inl refl))))))) refl

build_attention_timeline-IsAttested_example : All (IsAttested 2 days signals) timeline.intervals
build_attention_timeline-IsAttested_example =
    build_attention_timeline-IsAttested two_days signals days timeline built
