-- ===== src/Realtime/Hysteresis/Causes.antt =====
-- Why `evaluate_hysteresis` of packages/realtime/hysteresis.py moves a theme to another status or
-- lets it stay, in the words of the policy: by the verdict of the input and by the timers.
use dayjaview.Prelude.{
  ℕ, ◌+◌, ◌≤◌, ◌<◌, ◌≡◌, ◌≢◌, ◌⊎◌, true, false, none, some, arith, get_or, refl,
}
use dayjaview.Prelude.Exec.{ok}
use dayjaview.Domain.State.{
  LifecycleStatus, candidate, active, weakening, closed, discarded, transition_lifecycle,
}
use dayjaview.Domain.Coverage.{sufficient}
use dayjaview.Realtime.Hysteresis.Models.{
  HysteresisPolicy, ActivationEvaluation, HysteresisState, HysteresisDecision, transitioned,
}
use dayjaview.Realtime.Hysteresis.Reduce.{
  reduce, reduce_qualified, reduce_candidate, reduce_active, reduce_weakening, transition, covered,
  reset_timer,
}

module _ (policy : HysteresisPolicy) (s : HysteresisState) (e : ActivationEvaluation) where
  -- The input has a verdict, with sufficient coverage; or it has none.
  abbrev Counts : Type 0
  Counts = (e.coverage_status ≡ sufficient) × (e.qualifies ≡ some true)

  abbrev Fails : Type 0
  Fails = (e.coverage_status ≡ sufficient) × (e.qualifies ≡ some false)

  abbrev Unsure : Type 0
  Unsure = (e.coverage_status ≢ sufficient) ⊎ (e.qualifies ≡ none)

  -- The time at which a timer ran out, or runs out, if it starts now unless it runs already.
  abbrev activates_at : ℕ
  activates_at = get_or s.candidate_since e.evaluated_at + policy.activate_after

  abbrev weakens_at : ℕ
  weakens_at = get_or s.below_since e.evaluated_at + policy.weaken_after

  abbrev closes_at : ℕ
  closes_at = get_or s.weakening_below_since e.evaluated_at + policy.close_after

  -- What moves a theme from the first status to the second.
  abbrev pub Cause : LifecycleStatus → LifecycleStatus → Type 0
  Cause candidate candidate = ⊥
  Cause candidate active =
      (e.market_closed ≡ false)
      × (e.candidate_expired ≡ false)
      × Counts
      × (activates_at ≤ e.evaluated_at)
  Cause candidate weakening = ⊥
  Cause candidate closed = ⊥
  Cause candidate discarded = (e.market_closed ≡ true) ⊎ (e.candidate_expired ≡ true)
  Cause active candidate = ⊥
  Cause active active = ⊥
  Cause active weakening = (e.market_closed ≡ false) × Fails × (weakens_at ≤ e.evaluated_at)
  Cause active closed = e.market_closed ≡ true
  Cause active discarded = ⊥
  Cause weakening candidate = ⊥
  Cause weakening active =
      (e.market_closed ≡ false)
      × Counts
      × ((since : ℕ) × (s.weakening_since ≡ some since)
          × (e.evaluated_at ≤ since + policy.recover_within))
  Cause weakening weakening = ⊥
  Cause weakening closed =
      (e.market_closed ≡ true)
      ⊎ (Counts
          × ((since : ℕ) × (s.weakening_since ≡ some since)
              × (since + policy.recover_within < e.evaluated_at)))
      ⊎ (Fails × (closes_at ≤ e.evaluated_at))
  Cause weakening discarded = ⊥
  Cause closed to = ⊥
  Cause discarded to = ⊥

  -- What lets a theme stay in a status, with the timer that it is left with.
  abbrev pub Stays : LifecycleStatus → HysteresisState → Type 0
  Stays candidate s' =
      (e.market_closed ≡ false)
      × (e.candidate_expired ≡ false)
      × (((Unsure ⊎ Fails) × (s'.candidate_since ≡ none))
          ⊎ (Counts
              × (e.evaluated_at < activates_at)
              × (s'.candidate_since ≡ some (get_or s.candidate_since e.evaluated_at))))
  Stays active s' =
      (e.market_closed ≡ false)
      × (((Unsure ⊎ Counts) × (s'.below_since ≡ none))
          ⊎ (Fails
              × (e.evaluated_at < weakens_at)
              × (s'.below_since ≡ some (get_or s.below_since e.evaluated_at))))
  Stays weakening s' =
      (e.market_closed ≡ false)
      × (s'.weakening_since ≡ s.weakening_since)
      × ((Unsure × (s'.weakening_below_since ≡ none))
          ⊎ (Fails
              × (e.evaluated_at < closes_at)
              × (s'.weakening_below_since ≡ some (get_or s.weakening_below_since e.evaluated_at))))
  Stays closed s' = Unit {0}
  Stays discarded s' = Unit {0}

  -- The decision moves the theme for a cause, or lets it stay.
  abbrev pub Judged : LifecycleStatus → HysteresisDecision → Type 0
  Judged from d =
      ((d.disposition ≡ transitioned) × Cause from d.state.lifecycle_status)
      ⊎ ((d.disposition ≢ transitioned) × (d.state.lifecycle_status ≡ from) × Stays from d.state)

  reduce-candidate :
      (d : HysteresisDecision)
      → s.lifecycle_status ≡ candidate
      → reduce policy s e ≡ ok d
      → Judged candidate d
  unfolding reduce covered reset_timer reduce_qualified reduce_candidate transition
      transition_lifecycle
  reduce-candidate d at h = ground arith

  reduce-active :
      (d : HysteresisDecision)
      → s.lifecycle_status ≡ active
      → reduce policy s e ≡ ok d
      → Judged active d
  unfolding reduce covered reset_timer reduce_qualified reduce_active transition
      transition_lifecycle
  reduce-active d at h = ground arith

  reduce-weakening :
      (d : HysteresisDecision)
      → s.lifecycle_status ≡ weakening
      → reduce policy s e ≡ ok d
      → Judged weakening d
  unfolding reduce covered reset_timer reduce_qualified reduce_weakening transition
      transition_lifecycle
  reduce-weakening d at h = ground arith

  reduce-closed :
      (d : HysteresisDecision)
      → s.lifecycle_status ≡ closed
      → reduce policy s e ≡ ok d
      → Judged closed d
  unfolding reduce
  reduce-closed d at h = ground arith

  reduce-discarded :
      (d : HysteresisDecision)
      → s.lifecycle_status ≡ discarded
      → reduce policy s e ≡ ok d
      → Judged discarded d
  unfolding reduce
  reduce-discarded d at h = ground arith

  pub reduce-Judged :
      (d : HysteresisDecision) → reduce policy s e ≡ ok d → Judged s.lifecycle_status d
  reduce-Judged d h = by_status s.lifecycle_status refl
    where
      by_status : (from : LifecycleStatus) → s.lifecycle_status ≡ from → Judged from d
      by_status candidate at = reduce-candidate d at h
      by_status active at = reduce-active d at h
      by_status weakening at = reduce-weakening d at h
      by_status closed at = reduce-closed d at h
      by_status discarded at = reduce-discarded d at h
