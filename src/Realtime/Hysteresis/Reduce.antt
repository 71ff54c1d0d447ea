-- ===== src/Realtime/Hysteresis/Reduce.antt =====
-- `evaluate_hysteresis` and `_transition` of packages/realtime/hysteresis.py. `replace` runs the
-- checks of the constructor again, but on fields that passed them before and that it does not change.
use dayjaview.Prelude.{
  ℕ, ◌+◌, Bool, true, false, not, ◌&&◌, Option, none, some, String, String-discrete, ite, leb, ltb,
  get_or, if◌then◌else◌,
}
use dayjaview.Prelude.Exec.{Result, ok, raised, value_error, hysteresis_input_conflict, and_then}
use dayjaview.Domain.State.{
  LifecycleStatus, candidate, active, weakening, closed, discarded, transition_lifecycle,
}
use dayjaview.Domain.Coverage.{CoverageStatus, sufficient, partial, insufficient}
use dayjaview.Realtime.Hysteresis.Models.{
  HysteresisPolicy, ActivationEvaluation, HysteresisState, HysteresisDisposition,
  HysteresisDecision, transitioned, no_transition, duplicate, stale_sequence, stale_time, terminal,
}

abbrev pub decide_nothing : HysteresisState → HysteresisDisposition → HysteresisDecision
decide_nothing state disposition = record {
  state = state;
  disposition = disposition;
  transition = none;
}

-- `_transition`
unfoldable pub transition :
    HysteresisState → LifecycleStatus → ActivationEvaluation → String → Result HysteresisDecision
transition state target evaluation reason =
    and_then (transition_lifecycle state.lifecycle_status target state.policy_version) λ _.
      ok (record {
        state = record state {
          lifecycle_status = target;
          candidate_since = none;
          below_since = none;
          weakening_since = none;
          weakening_below_since = none;
        };
        disposition = transitioned;
        transition = some (record {
          from_status = state.lifecycle_status;
          to_status = target;
          policy_version = state.policy_version;
          input_id = evaluation.input_id;
          reason = reason;
        });
      })

-- `replace(transitioned, state=weakened)`
abbrev pub start_weakening : ℕ → HysteresisDecision → HysteresisDecision
start_weakening now d = record d {
  state = record d.state {
    weakening_since = some now;
    weakening_below_since = some now;
    below_since = none;
  };
}

-- The input is recorded before it is judged.
abbrev pub advance : String → HysteresisState → ActivationEvaluation → HysteresisState
advance fingerprint state evaluation = record state {
  last_sequence = evaluation.sequence;
  last_evaluated_at = some evaluation.evaluated_at;
  last_input_id = some evaluation.input_id;
  last_input_fingerprint = some fingerprint;
}

-- Missing coverage is not a failure to qualify: it stops the timer that runs.
unfoldable pub reset_timer : LifecycleStatus → HysteresisState → HysteresisState
reset_timer candidate s = record s { candidate_since = none }
reset_timer active s = record s { below_since = none }
reset_timer weakening s = record s { weakening_below_since = none }
reset_timer closed s = s
reset_timer discarded s = s

-- `now - since >= after` is `since + after <= now`, with no subtraction.
unfoldable pub reduce_candidate :
    HysteresisPolicy → HysteresisState → ActivationEvaluation → Bool → Result HysteresisDecision
reduce_candidate policy advanced evaluation false =
    ok (decide_nothing (record advanced { candidate_since = none }) no_transition)
reduce_candidate policy advanced evaluation true =
    let now = evaluation.evaluated_at in
    let since = get_or advanced.candidate_since now in
    let advanced' = record advanced { candidate_since = some since } in
    if leb (since + policy.activate_after) now
    then transition advanced' active evaluation "활성 기준 지속 충족"
    else ok (decide_nothing advanced' no_transition)

unfoldable pub reduce_active :
    HysteresisPolicy → HysteresisState → ActivationEvaluation → Bool → Result HysteresisDecision
reduce_active policy advanced evaluation true =
    ok (decide_nothing (record advanced { below_since = none }) no_transition)
reduce_active policy advanced evaluation false =
    let now = evaluation.evaluated_at in
    let since = get_or advanced.below_since now in
    let advanced' = record advanced { below_since = some since } in
    if leb (since + policy.weaken_after) now
    then and_then (transition advanced' weakening evaluation "활성 기준 미달 지속")
        (λ d. ok (start_weakening now d))
    else ok (decide_nothing advanced' no_transition)

unfoldable pub reduce_weakening :
    HysteresisPolicy
    → HysteresisState
    → ActivationEvaluation
    → Bool
    → Option ℕ
    → Result HysteresisDecision
reduce_weakening policy advanced evaluation qualifies none = raised value_error
reduce_weakening policy advanced evaluation true (some weakening_since) =
    if leb evaluation.evaluated_at (weakening_since + policy.recover_within)
    then transition advanced active evaluation "같은 Event 재강화"
    else transition advanced closed evaluation "재강화 허용 시간 경과"
reduce_weakening policy advanced evaluation false (some weakening_since) =
    let now = evaluation.evaluated_at in
    let since = get_or advanced.weakening_below_since now in
    let advanced' = record advanced { weakening_below_since = some since } in
    if leb (since + policy.close_after) now
    then transition advanced' closed evaluation "약화 지속"
    else ok (decide_nothing advanced' no_transition)

-- The branches on `state.lifecycle_status`.
unfoldable pub reduce_qualified :
    LifecycleStatus
    → HysteresisPolicy
    → HysteresisState
    → ActivationEvaluation
    → Bool
    → Result HysteresisDecision
reduce_qualified candidate policy s e q = reduce_candidate policy s e q
reduce_qualified active policy s e q = reduce_active policy s e q
reduce_qualified weakening policy s e q = reduce_weakening policy s e q s.weakening_since
reduce_qualified closed policy s e q = ok (decide_nothing s no_transition)
reduce_qualified discarded policy s e q = ok (decide_nothing s no_transition)

-- `evaluation.qualifies if the coverage is sufficient else None`
unfoldable pub covered : CoverageStatus → Option Bool → Option Bool
covered sufficient qualifies = qualifies
covered partial qualifies = none
covered insufficient qualifies = none

abbrev pub is_terminal : LifecycleStatus → Bool
is_terminal candidate = false
is_terminal active = false
is_terminal weakening = false
is_terminal closed = true
is_terminal discarded = true

abbrev pub is_candidate : LifecycleStatus → Bool
is_candidate candidate = true
is_candidate active = false
is_candidate weakening = false
is_candidate closed = false
is_candidate discarded = false

-- What is done with an input that is neither a duplicate nor stale.
unfoldable pub reduce :
    HysteresisPolicy → HysteresisState → ActivationEvaluation → Result HysteresisDecision
unfolding covered reset_timer
reduce policy advanced evaluation =
    let status = advanced.lifecycle_status in
    if is_terminal status
    then ok (decide_nothing advanced terminal)
    else if evaluation.market_closed
    then transition advanced (if is_candidate status then discarded else closed) evaluation "장 마감"
    else if evaluation.candidate_expired && is_candidate status
    then transition advanced discarded evaluation "후보 신호 소멸"
    else elim (covered evaluation.coverage_status evaluation.qualifies) [
      | none ↦ ok (decide_nothing (reset_timer status advanced) no_transition)
      | some qualifies ↦ reduce_qualified status policy advanced evaluation qualifies
    ]

-- `a < last_evaluated_at`, where there is one
abbrev pub is_before : ℕ → Option ℕ → Bool
is_before a none = false
is_before a (some b) = ltb a b

-- `input_id == last_input_id` and the other comparisons with a value that may be missing
unfoldable pub is_same : String → Option String → Bool
is_same a none = false
is_same a (some b) = ite (String-discrete a b) true false

-- The fingerprint is the SHA-256 of the input's canonical JSON.
module _ (fingerprint : ActivationEvaluation → String) where
  unfoldable pub evaluate_hysteresis :
      HysteresisPolicy → HysteresisState → ActivationEvaluation → Result HysteresisDecision
  unfolding is_same
  evaluate_hysteresis policy state evaluation =
      if not (is_same state.policy_version (some policy.version))
      then raised value_error
      else if not (is_same evaluation.policy_version (some policy.version))
      then raised value_error
      else if is_same evaluation.input_id state.last_input_id
      then if is_same (fingerprint evaluation) state.last_input_fingerprint
        then ok (decide_nothing state duplicate)
        else raised hysteresis_input_conflict
      else if leb evaluation.sequence state.last_sequence
      then ok (decide_nothing state stale_sequence)
      else if is_before evaluation.evaluated_at state.last_evaluated_at
      then ok (decide_nothing state stale_time)
      else reduce policy (advance (fingerprint evaluation) state evaluation) evaluation
