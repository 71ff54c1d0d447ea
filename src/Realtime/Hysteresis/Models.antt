-- ===== src/Realtime/Hysteresis/Models.antt =====
-- The policy, inputs, state and answers of packages/realtime/hysteresis.py. An aware `datetime` is
-- the number of microseconds since a fixed instant, a `timedelta` a number of microseconds.
use dayjaview.Prelude.{ℕ, Bool, not, ◌&&◌, Option, none, String, ltb, ◌||◌, is_blank, if◌then◌else◌}
use dayjaview.Prelude.Exec.{Result, raised, value_error, require}
use dayjaview.Domain.State.{LifecycleStatus, candidate}
use dayjaview.Domain.Coverage.{CoverageStatus}

pub record HysteresisPolicy : Type 0 where
  pub version : String
  pub maturity : String
  pub activate_after : ℕ
  pub weaken_after : ℕ
  pub recover_within : ℕ
  pub close_after : ℕ

abbrev pub hysteresis_policy_v1 : HysteresisPolicy
hysteresis_policy_v1 = record {
  version = "theme-hysteresis-2026.08.1";
  maturity = "BACKTEST_PENDING";
  activate_after = 10_000_000;
  weaken_after = 60_000_000;
  recover_within = 600_000_000;
  close_after = 600_000_000;
}

-- `__post_init__`: a `timedelta` here is not negative, so only zero is refused
unfoldable pub check_policy : HysteresisPolicy → Result (Unit {0})
check_policy p =
    if is_blank p.version || is_blank p.maturity
    then raised value_error
    else require
        (ltb 0 p.activate_after
          && ltb 0 p.weaken_after
          && ltb 0 p.recover_within
          && ltb 0 p.close_after)
        value_error

pub record ActivationEvaluation : Type 0 where
  pub input_id : String
  pub sequence : ℕ
  pub evaluated_at : ℕ
  pub policy_version : String
  pub coverage_status : CoverageStatus
  pub qualifies : Option Bool
  pub market_closed : Bool
  pub candidate_expired : Bool

-- `__post_init__`
unfoldable pub check_evaluation : ActivationEvaluation → Result (Unit {0})
check_evaluation e =
    if is_blank e.input_id || ltb e.sequence 1 || is_blank e.policy_version
    then raised value_error
    else require (not (e.market_closed && e.candidate_expired)) value_error

pub record HysteresisState : Type 0 where
  pub theme_id : String
  pub lifecycle_status : LifecycleStatus
  pub policy_version : String
  pub last_sequence : ℕ
  pub last_evaluated_at : Option ℕ
  pub last_input_id : Option String
  pub last_input_fingerprint : Option String
  pub candidate_since : Option ℕ
  pub below_since : Option ℕ
  pub weakening_since : Option ℕ
  pub weakening_below_since : Option ℕ

-- `__post_init__`
unfoldable pub check_state : HysteresisState → Result (Unit {0})
check_state s = require (not (is_blank s.theme_id) && not (is_blank s.policy_version)) value_error

-- `HysteresisState.candidate`
unfoldable pub candidate_state : String → HysteresisPolicy → HysteresisState
candidate_state theme_id policy = record {
  theme_id = theme_id;
  lifecycle_status = candidate;
  policy_version = policy.version;
  last_sequence = 0;
  last_evaluated_at = none;
  last_input_id = none;
  last_input_fingerprint = none;
  candidate_since = none;
  below_since = none;
  weakening_since = none;
  weakening_below_since = none;
}

pub record HysteresisTransition : Type 0 where
  pub from_status : LifecycleStatus
  pub to_status : LifecycleStatus
  pub policy_version : String
  pub input_id : String
  pub reason : String

pub data HysteresisDisposition : Type 0 where
  transitioned no_transition duplicate stale_sequence stale_time terminal : HysteresisDisposition

pub record HysteresisDecision : Type 0 where
  pub state : HysteresisState
  pub disposition : HysteresisDisposition
  pub transition : Option HysteresisTransition
