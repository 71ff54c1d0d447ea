-- ===== src/Realtime/Hysteresis/Consistency.antt =====
-- Which timers a state of packages/realtime/hysteresis.py carries, and the reducer on such a state.
use dayjaview.Prelude.{ℕ, ◌≤◌, ◌≡◌, ◌≢◌, ◌⊎◌, refl, Bool, true, false, Option, none, some, arith}
use dayjaview.Prelude.Exec.{Returns}
use dayjaview.Domain.State.{
  LifecycleStatus, candidate, active, weakening, closed, discarded, transition_lifecycle,
}
use dayjaview.Domain.State.Graph.{◌⟶◌, activate, discard, weaken, close, recover, expire}
use dayjaview.Realtime.Hysteresis.Models.{
  HysteresisPolicy, ActivationEvaluation, HysteresisState, HysteresisDisposition,
  HysteresisDecision, duplicate, stale_sequence, stale_time, terminal, transitioned, no_transition,
}
use dayjaview.Realtime.Hysteresis.Reduce.{
  transition, reset_timer, reduce_candidate, reduce_active, reduce_weakening, reduce_qualified,
  reduce,
}

-- A timer that runs began at the last accepted input or before.
abbrev pub Began : Option ℕ → Option ℕ → Type 0
Began none last = Unit
Began (some t) none = ⊥
Began (some t) (some last) = t ≤ last

-- The timers that a status allows.
abbrev pub Timers : LifecycleStatus → HysteresisState → Type 0
Timers candidate s =
    (s.below_since ≡ none) × (s.weakening_since ≡ none) × (s.weakening_below_since ≡ none)
Timers active s =
    (s.candidate_since ≡ none) × (s.weakening_since ≡ none) × (s.weakening_below_since ≡ none)
Timers weakening s =
    (s.candidate_since ≡ none) × (s.below_since ≡ none) × (s.weakening_since ≢ none)
Timers closed s =
    (s.candidate_since ≡ none)
    × (s.below_since ≡ none)
    × (s.weakening_since ≡ none)
    × (s.weakening_below_since ≡ none)
Timers discarded s =
    (s.candidate_since ≡ none)
    × (s.below_since ≡ none)
    × (s.weakening_since ≡ none)
    × (s.weakening_below_since ≡ none)

pub record IsConsistent (s : HysteresisState) : Type 0 where
  pub timers : Timers s.lifecycle_status s
  pub candidate_began : Began s.candidate_since s.last_evaluated_at
  pub below_began : Began s.below_since s.last_evaluated_at
  pub weakening_began : Began s.weakening_since s.last_evaluated_at
  pub weakening_below_began : Began s.weakening_below_since s.last_evaluated_at

-- An input that was neither a duplicate nor stale.
abbrev pub is_accepted : HysteresisDisposition → Bool
is_accepted transitioned = true
is_accepted no_transition = true
is_accepted duplicate = false
is_accepted stale_sequence = false
is_accepted stale_time = false
is_accepted terminal = true

-- From the state `s` that has recorded the input `e`: the timers stay in order, the status moves
-- along an edge of the diagram, and is then reported, or stays; all else is kept.
pub record Reduced (s : HysteresisState) (e : ActivationEvaluation) (d : HysteresisDecision)
    : Type 0 where
  pub consistent : IsConsistent d.state
  pub accepted : is_accepted d.disposition ≡ true
  pub follows :
      ((d.disposition ≡ transitioned) × (s.lifecycle_status ⟶ d.state.lifecycle_status))
      ⊎ ((d.disposition ≢ transitioned) × (d.state.lifecycle_status ≡ s.lifecycle_status))
  pub sequence : d.state.last_sequence ≡ s.last_sequence
  pub evaluated_at : d.state.last_evaluated_at ≡ s.last_evaluated_at
  pub input_id : d.state.last_input_id ≡ s.last_input_id
  pub fingerprint : d.state.last_input_fingerprint ≡ s.last_input_fingerprint
  pub policy_version : d.state.policy_version ≡ s.policy_version
  pub theme_id : d.state.theme_id ≡ s.theme_id

ruleset edges = (activate, discard, weaken, close, recover, expire)

module _ (policy : HysteresisPolicy) (s : HysteresisState) (e : ActivationEvaluation)
    (named : s.policy_version ≢ "") (now : s.last_evaluated_at ≡ some e.evaluated_at)
    (seq : s.last_sequence ≡ e.sequence) (c : IsConsistent s) where
  reduce_candidate_succeeds :
      (q : Bool)
      → s.lifecycle_status ≡ candidate
      → Returns (Reduced s e) (reduce_candidate policy s e q)
  unfolding reduce_candidate transition transition_lifecycle
  reduce_candidate_succeeds false at = grind (arith, edges)
  reduce_candidate_succeeds true at = grind (arith, edges)

  reduce_active_succeeds :
      (q : Bool) → s.lifecycle_status ≡ active → Returns (Reduced s e) (reduce_active policy s e q)
  unfolding reduce_active transition transition_lifecycle
  reduce_active_succeeds true at = grind (arith, edges)
  reduce_active_succeeds false at = grind (arith, edges)

  reduce_weakening_succeeds :
      (q : Bool) (since : Option ℕ)
      → s.lifecycle_status ≡ weakening
      → s.weakening_since ≡ since
      → Returns (Reduced s e) (reduce_weakening policy s e q since)
  unfolding reduce_weakening transition transition_lifecycle
  reduce_weakening_succeeds true none at w = grind (arith, edges)
  reduce_weakening_succeeds true (some t) at w = grind (arith, edges)
  reduce_weakening_succeeds false none at w = grind (arith, edges)
  reduce_weakening_succeeds false (some t) at w = grind (arith, edges)

  reduce_qualified_succeeds :
      (status : LifecycleStatus) (q : Bool)
      → s.lifecycle_status ≡ status
      → Returns (Reduced s e) (reduce_qualified status policy s e q)
  unfolding reduce_qualified
  reduce_qualified_succeeds candidate q at = reduce_candidate_succeeds q at
  reduce_qualified_succeeds active q at = reduce_active_succeeds q at
  reduce_qualified_succeeds weakening q at = reduce_weakening_succeeds q s.weakening_since at refl
  reduce_qualified_succeeds closed q at = grind (arith, edges)
  reduce_qualified_succeeds discarded q at = grind (arith, edges)

  reset_timer-Reduced :
      (status : LifecycleStatus)
      → s.lifecycle_status ≡ status
      → Reduced s e
          (record { state = reset_timer status s; disposition = no_transition; transition = none })
  unfolding reset_timer
  reset_timer-Reduced candidate at = grind (arith, edges)
  reset_timer-Reduced active at = grind (arith, edges)
  reset_timer-Reduced weakening at = grind (arith, edges)
  reset_timer-Reduced closed at = grind (arith, edges)
  reset_timer-Reduced discarded at = grind (arith, edges)

  pub reduce_succeeds : Returns (Reduced s e) (reduce policy s e)
  unfolding reduce transition transition_lifecycle
  reduce_succeeds = grind (
    arith,
    edges,
    reduce_qualified_succeeds s.lifecycle_status true refl,
    reduce_qualified_succeeds s.lifecycle_status false refl,
    reset_timer-Reduced s.lifecycle_status refl,
  )
