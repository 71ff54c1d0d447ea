-- ===== src/Tests/Hysteresis.antt =====
-- packages/realtime/hysteresis.py at concrete inputs.
use dayjaview.Prelude.{
  ℕ, ◌+◌, ◌≤◌, ◌≡◌, ◌≢◌, refl, arith, true, false, none, some, [], ◌∷◌, String, String-discrete,
  is_blank, ne-empty_of_not_blank, ite,
}
use dayjaview.Prelude.Exec.{ok}
use dayjaview.Domain.Coverage.{sufficient, insufficient}
use dayjaview.Domain.State.{candidate, active, weakening, transition_lifecycle}
use dayjaview.Realtime.Hysteresis.{
  hysteresis_policy_v1, HysteresisState, candidate_state, ActivationEvaluation, check_policy,
  evaluate_hysteresis, HysteresisDecision, decide_nothing, transitioned, no_transition, reduce,
  covered, reduce_qualified, reduce_candidate, transition, reset_timer, reduce_weakening,
}
use dayjaview.Realtime.Hysteresis.Consistency.{IsConsistent}
use dayjaview.Realtime.Hysteresis.Decisions.{IsFresh, Outcome, evaluate_hysteresis-Outcome}
use dayjaview.Realtime.Hysteresis.Streak.{run, streak_start, activation_sustained}

abbrev fingerprint : ActivationEvaluation → String
fingerprint e = e.input_id

abbrev input : String → ℕ → ℕ → ActivationEvaluation
input id sequence at = record {
  input_id = id;
  sequence = sequence;
  evaluated_at = at;
  policy_version = "theme-hysteresis-2026.08.1";
  coverage_status = sufficient;
  qualifies = some true;
  market_closed = false;
  candidate_expired = false;
}

abbrev start : HysteresisState
start = candidate_state "theme-1" hysteresis_policy_v1

abbrev first : ActivationEvaluation
first = input "input-1" 1 5_000_000

abbrev second : ActivationEvaluation
second = input "input-2" 2 15_000_000

valid : check_policy hysteresis_policy_v1 ≡ ok tt
unfolding check_policy is_blank
valid = refl

start-IsConsistent : IsConsistent start
unfolding candidate_state
start-IsConsistent = ground arith

evaluate_hysteresis-Outcome_example :
    Outcome fingerprint hysteresis_policy_v1 start first
      (evaluate_hysteresis fingerprint hysteresis_policy_v1 start first)
evaluate_hysteresis-Outcome_example =
    evaluate_hysteresis-Outcome fingerprint hysteresis_policy_v1 start first valid
      start-IsConsistent

-- The candidate after its first input.
abbrev timed : HysteresisState
timed = record start {
  last_sequence = 1;
  last_evaluated_at = some 5_000_000;
  last_input_id = some "input-1";
  last_input_fingerprint = some "input-1";
  candidate_since = some 5_000_000;
}

abbrev timing : HysteresisDecision
timing = decide_nothing timed no_transition

first_decision : evaluate_hysteresis fingerprint hysteresis_policy_v1 start first ≡ ok timing
unfolding evaluate_hysteresis reduce covered reduce_qualified reduce_candidate candidate_state
    String-discrete
first_decision = refl

run-first : run fingerprint hysteresis_policy_v1 start [] (first ∷ []) ≡ ok (timed, first ∷ [])
unfolding run evaluate_hysteresis reduce covered reduce_qualified reduce_candidate candidate_state
    String-discrete
run-first = refl

at_candidate : timed.lifecycle_status ≡ candidate
unfolding candidate_state
at_candidate = refl

-- Ten seconds later the theme is activated.
abbrev activated : HysteresisState
activated = record start {
  lifecycle_status = active;
  last_sequence = 2;
  last_evaluated_at = some 15_000_000;
  last_input_id = some "input-2";
  last_input_fingerprint = some "input-2";
}

abbrev activation : HysteresisDecision
activation = record {
  state = activated;
  disposition = transitioned;
  transition = some (record {
    from_status = candidate;
    to_status = active;
    policy_version = "theme-hysteresis-2026.08.1";
    input_id = "input-2";
    reason = "활성 기준 지속 충족";
  });
}

second_decision : evaluate_hysteresis fingerprint hysteresis_policy_v1 timed second ≡ ok activation
unfolding evaluate_hysteresis reduce covered reduce_qualified reduce_candidate transition
    transition_lifecycle candidate_state String-discrete
second_decision = refl

activation_sustained_example :
    (since : ℕ) × (streak_start (second ∷ first ∷ []) ≡ some since)
    × (since + hysteresis_policy_v1.activate_after ≤ second.evaluated_at)
activation_sustained_example =
    activation_sustained fingerprint hysteresis_policy_v1 valid "theme-1" (first ∷ []) timed
      (first ∷ []) second activation run-first at_candidate second_decision refl

policy_named : hysteresis_policy_v1.version ≢ ""
unfolding is_blank
policy_named = ne-empty_of_not_blank hysteresis_policy_v1.version refl

ids_differ : (a b : String) → ite (String-discrete a b) true false ≡ false → some a ≢ some b
ids_differ a b h q = ground arith

inputs_differ : some first.input_id ≢ some second.input_id
unfolding String-discrete
inputs_differ = ids_differ "input-1" "input-2" refl

second_fresh : IsFresh fingerprint hysteresis_policy_v1 timed second
unfolding candidate_state
second_fresh = (refl, refl, inputs_differ, ground arith, refl)

-- The close of the market.
abbrev closing : ActivationEvaluation
closing = record second { market_closed = true }

closing_fresh : IsFresh fingerprint hysteresis_policy_v1 timed closing
unfolding candidate_state
closing_fresh = (refl, refl, inputs_differ, ground arith, refl)

-- An input with too little coverage.
abbrev uncovered : ActivationEvaluation
uncovered = record first { coverage_status = insufficient }

abbrev untimed : HysteresisDecision
untimed = decide_nothing (record timed { candidate_since = none }) no_transition

uncovered_decision :
    evaluate_hysteresis fingerprint hysteresis_policy_v1 start uncovered ≡ ok untimed
unfolding evaluate_hysteresis reduce covered reset_timer candidate_state String-discrete
uncovered_decision = refl

is_uncovered : insufficient ≢ sufficient
is_uncovered q = ground arith

-- A theme that began to weaken a minute before.
abbrev weak : HysteresisState
weak = record start {
  lifecycle_status = weakening;
  last_sequence = 1;
  last_evaluated_at = some 1_000_000;
  last_input_id = some "input-1";
  last_input_fingerprint = some "input-1";
  weakening_since = some 1_000_000;
  weakening_below_since = some 1_000_000;
}

abbrev recovery : HysteresisDecision
recovery = record {
  state = activated;
  disposition = transitioned;
  transition = some (record {
    from_status = weakening;
    to_status = active;
    policy_version = "theme-hysteresis-2026.08.1";
    input_id = "input-2";
    reason = "같은 Event 재강화";
  });
}

recovery_decision : evaluate_hysteresis fingerprint hysteresis_policy_v1 weak second ≡ ok recovery
unfolding evaluate_hysteresis reduce covered reduce_qualified reduce_weakening transition
    transition_lifecycle candidate_state String-discrete
recovery_decision = refl
