-- ===== src/Calculations/Intervals.antt =====
-- The records of packages/calculations/attention.py: the signal of a trading day, and the intervals.

use dayjaview.Prelude.{
  ℕ, Bool, Option, none, some, String, String-discrete, List, [], ◌∷◌, sort_by, unique, text_first,
  is_none, if◌then◌else◌,
}
use dayjaview.Domain.Reasons.{UnavailableReason, no_current_attention_interval}
use dayjaview.Calculations.Policies.{PolicyMaturity}
use dayjaview.Domain.Decimal.{Decimal}

pub record AttentionDaySignal : Type 0 where
  pub market_date : ℕ
  pub is_attention : Option Bool
  pub membership_version : Option String
  pub calculation_version : String
  pub baseline_version : String
  pub attention_policy_version : String
  pub turnover_multiple : Option Decimal
  pub high_interest_count : Option ℕ
  pub valid_count : Option ℕ
  pub high_interest_ratio : Option Decimal
  pub weighted_return : Option Decimal
  pub unavailable_reason : Option UnavailableReason

pub record AttentionInterval : Type 0 where
  pub first_attention_date : ℕ
  pub last_attention_date : ℕ
  pub closed_confirmation_date : Option ℕ
  pub gap_trading_days : Option ℕ
  pub gap_unavailable_reason : Option UnavailableReason
  pub membership_versions : List String
  pub calculation_versions : List String
  pub baseline_versions : List String
  pub attention_policy_version : String

pub record AttentionTimeline : Type 0 where
  pub policy_version : String
  pub policy_maturity : PolicyMaturity
  pub intervals : List AttentionInterval

-- `_MutableInterval` without the date of the close, which is set just before it is frozen. A `set`
-- is a list of its elements.
pub record OpenInterval : Type 0 where
  pub first_attention_date : ℕ
  pub last_attention_date : ℕ
  pub gap_trading_days : Option ℕ
  pub gap_unavailable_reason : Option UnavailableReason
  pub membership_versions : List String
  pub calculation_versions : List String
  pub baseline_versions : List String
  pub attention_policy_version : String

-- `sorted` of a set of texts
abbrev pub sorted_texts : List String → List String
sorted_texts ts = sort_by text_first (unique String-discrete ts)

-- `_MutableInterval.freeze`, with the date of the close
unfoldable pub freeze : Option ℕ → OpenInterval → AttentionInterval
unfolding sort_by unique String-discrete
freeze closed i = record {
  first_attention_date = i.first_attention_date;
  last_attention_date = i.last_attention_date;
  closed_confirmation_date = closed;
  gap_trading_days = i.gap_trading_days;
  gap_unavailable_reason = i.gap_unavailable_reason;
  membership_versions = sorted_texts i.membership_versions;
  calculation_versions = sorted_texts i.calculation_versions;
  baseline_versions = sorted_texts i.baseline_versions;
  attention_policy_version = i.attention_policy_version;
}

-- The versions with the one of a signal, if it has one.
abbrev pub with_version : Option String → List String → List String
with_version none versions = versions
with_version (some v) versions = v ∷ versions

-- `_new_interval`
unfoldable pub new_interval :
    AttentionDaySignal → Option ℕ × Option UnavailableReason → OpenInterval
new_interval s gap = record {
  first_attention_date = s.market_date;
  last_attention_date = s.market_date;
  gap_trading_days = gap.0;
  gap_unavailable_reason = gap.1;
  membership_versions = with_version s.membership_version [];
  calculation_versions = s.calculation_version ∷ [];
  baseline_versions = s.baseline_version ∷ [];
  attention_policy_version = s.attention_policy_version;
}

-- What a further day of attention does to the open interval.
unfoldable pub extend : ℕ → AttentionDaySignal → OpenInterval → OpenInterval
extend market_date s i = record i {
  last_attention_date = market_date;
  membership_versions = with_version s.membership_version i.membership_versions;
  calculation_versions = s.calculation_version ∷ i.calculation_versions;
  baseline_versions = s.baseline_version ∷ i.baseline_versions;
}

-- `completed[-1]`
unfoldable pub last_interval : List AttentionInterval → Option AttentionInterval
last_interval [] = none
last_interval (i ∷ []) = some i
last_interval (i ∷ j ∷ is) = last_interval (j ∷ is)

-- `AttentionInterval.is_open`
abbrev pub is_open : AttentionInterval → Bool
is_open i = is_none i.closed_confirmation_date

-- `AttentionTimeline.current_interval`
unfoldable pub current_interval : AttentionTimeline → Option AttentionInterval
unfolding last_interval
current_interval t = elim (last_interval t.intervals) [
  | none ↦ none
  | some i ↦ if is_open i then some i else none
]

-- `AttentionTimeline.current_gap_trading_days`
unfoldable pub current_gap_trading_days : AttentionTimeline → Option ℕ
unfolding current_interval
current_gap_trading_days t = elim (current_interval t) [ none ↦ none | some i ↦ i.gap_trading_days ]

-- `AttentionTimeline.current_gap_unavailable_reason`
unfoldable pub current_gap_unavailable_reason : AttentionTimeline → Option UnavailableReason
unfolding current_interval
current_gap_unavailable_reason t = elim (current_interval t) [
  | none ↦ some no_current_attention_interval
  | some i ↦ i.gap_unavailable_reason
]
