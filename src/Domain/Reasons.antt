-- ===== src/Domain/Reasons.antt =====
-- `UnavailableReason` and `QualityFlag` of packages/domain/models.py: why a value could not be
-- calculated, and what is to be known of one that was.
use dayjaview.Prelude.{String}

pub data UnavailableReason : Type 0 where
  empty_membership insufficient_coverage missing_reference_data : UnavailableReason
  missing_market_data trading_halted corporate_action_unresolved : UnavailableReason
  insufficient_observations zero_baseline no_prior_attention_interval : UnavailableReason
  no_current_attention_interval membership_history_unavailable : UnavailableReason
  membership_version_mismatch incomplete_attention_history : UnavailableReason

pub data QualityFlag : Type 0 where
  partial_coverage insufficient_coverage stale_market_data : QualityFlag
  free_float_unavailable provisional_baseline membership_version_mismatch : QualityFlag
  source_degraded reference_price_unavailable market_price_unavailable : QualityFlag
  trading_halted corporate_action_unresolved insufficient_observations : QualityFlag
  zero_baseline point_in_time_violation : QualityFlag

-- `flag.value`
abbrev pub flag_value : QualityFlag → String
flag_value partial_coverage = "PARTIAL_COVERAGE"
flag_value QualityFlag.insufficient_coverage = "INSUFFICIENT_COVERAGE"
flag_value stale_market_data = "STALE_MARKET_DATA"
flag_value free_float_unavailable = "FREE_FLOAT_UNAVAILABLE"
flag_value provisional_baseline = "PROVISIONAL_BASELINE"
flag_value QualityFlag.membership_version_mismatch = "MEMBERSHIP_VERSION_MISMATCH"
flag_value source_degraded = "SOURCE_DEGRADED"
flag_value reference_price_unavailable = "REFERENCE_PRICE_UNAVAILABLE"
flag_value market_price_unavailable = "MARKET_PRICE_UNAVAILABLE"
flag_value QualityFlag.trading_halted = "TRADING_HALTED"
flag_value QualityFlag.corporate_action_unresolved = "CORPORATE_ACTION_UNRESOLVED"
flag_value QualityFlag.insufficient_observations = "INSUFFICIENT_OBSERVATIONS"
flag_value QualityFlag.zero_baseline = "ZERO_BASELINE"
flag_value point_in_time_violation = "POINT_IN_TIME_VIOLATION"

-- `reason.value`
abbrev pub reason_value : UnavailableReason → String
reason_value UnavailableReason.empty_membership = "EMPTY_MEMBERSHIP"
reason_value UnavailableReason.insufficient_coverage = "INSUFFICIENT_COVERAGE"
reason_value UnavailableReason.missing_reference_data = "MISSING_REFERENCE_DATA"
reason_value UnavailableReason.missing_market_data = "MISSING_MARKET_DATA"
reason_value UnavailableReason.trading_halted = "TRADING_HALTED"
reason_value UnavailableReason.corporate_action_unresolved = "CORPORATE_ACTION_UNRESOLVED"
reason_value UnavailableReason.insufficient_observations = "INSUFFICIENT_OBSERVATIONS"
reason_value UnavailableReason.zero_baseline = "ZERO_BASELINE"
reason_value UnavailableReason.no_prior_attention_interval = "NO_PRIOR_ATTENTION_INTERVAL"
reason_value UnavailableReason.no_current_attention_interval = "NO_CURRENT_ATTENTION_INTERVAL"
reason_value UnavailableReason.membership_history_unavailable = "MEMBERSHIP_HISTORY_UNAVAILABLE"
reason_value UnavailableReason.membership_version_mismatch = "MEMBERSHIP_VERSION_MISMATCH"
reason_value UnavailableReason.incomplete_attention_history = "INCOMPLETE_ATTENTION_HISTORY"
