-- ===== src/Realtime/Hysteresis/Moves.antt =====
-- Which inputs move a theme of packages/realtime/hysteresis.py from one status to another.
use dayjaview.Prelude.{ℕ, ◌+◌, ◌≤◌, ◌≡◌, ◌≢◌, ◌⊎◌, true, false, none, some, String, arith, get_or}
use dayjaview.Prelude.Exec.{Result, ok, Returns}
use dayjaview.Domain.State.{candidate, active, weakening, closed, discarded, transition_lifecycle}
use dayjaview.Domain.Coverage.{sufficient}
use dayjaview.Realtime.Hysteresis.Models.{
  HysteresisPolicy, ActivationEvaluation, HysteresisState, HysteresisDecision,
}
use dayjaview.Realtime.Hysteresis.Reduce.{
  is_terminal, reduce, reduce_qualified, reduce_candidate, reduce_weakening, transition, covered,
  reset_timer, evaluate_hysteresis,
}
use dayjaview.Realtime.Hysteresis.Decisions.{IsFresh}
use dayjaview.Realtime.Hysteresis.Streak.{counts}

module _ (fingerprint : ActivationEvaluation → String) (policy : HysteresisPolicy)
    (s : HysteresisState) (e : ActivationEvaluation) where
  abbrev pub decided : Result HysteresisDecision
  decided = evaluate_hysteresis fingerprint policy s e

  -- While the market is open and no candidate expires, an input without sufficient coverage or
  -- without a verdict changes no status, whatever the verdict would be.
  pub uncovered_keeps_status :
      (d : HysteresisDecision)
      → decided ≡ ok d
      → e.market_closed ≡ false
      → e.candidate_expired ≡ false
      → (e.coverage_status ≢ sufficient) ⊎ (e.qualifies ≡ none)
      → d.state.lifecycle_status ≡ s.lifecycle_status
  unfolding evaluate_hysteresis reduce reset_timer covered
  uncovered_keeps_status d h market expired none_covered = ground arith

  -- Under a policy with a version, a fresh input at the close of the market ends every theme that
  -- has not ended: a candidate is discarded, an active
  -- or weakening theme is closed.
  pub market_close_ends :
      policy.version ≢ ""
      → IsFresh fingerprint policy s e
      → e.market_closed ≡ true
      → is_terminal s.lifecycle_status ≡ false
      → Returns
          (λ d.
            ((s.lifecycle_status ≡ candidate) × (d.state.lifecycle_status ≡ discarded))
            ⊎ ((s.lifecycle_status ≢ candidate) × (d.state.lifecycle_status ≡ closed)))
          decided
  unfolding evaluate_hysteresis reduce transition transition_lifecycle
  market_close_ends named f market live = ground arith

  -- Under a policy with a version, while the market is open and no candidate expires, a fresh input
  -- that qualifies with sufficient coverage activates a candidate whose timer has run for
  -- `activate_after`.
  pub activation_reached :
      policy.version ≢ ""
      → IsFresh fingerprint policy s e
      → e.market_closed ≡ false
      → e.candidate_expired ≡ false
      → s.lifecycle_status ≡ candidate
      → counts e ≡ true
      → get_or s.candidate_since e.evaluated_at + policy.activate_after ≤ e.evaluated_at
      → Returns (λ d. d.state.lifecycle_status ≡ active) decided
  unfolding evaluate_hysteresis reduce covered reduce_qualified reduce_candidate transition
      transition_lifecycle
  activation_reached named f market expired at qualified long = ground arith

  -- A weakening theme is active again only by an input that qualifies with sufficient coverage within
  -- `recover_within` of the time at which the theme began to weaken.
  pub recovery_window :
      (d : HysteresisDecision) (since : ℕ)
      → decided ≡ ok d
      → s.lifecycle_status ≡ weakening
      → s.weakening_since ≡ some since
      → d.state.lifecycle_status ≡ active
      → (counts e ≡ true) × (e.evaluated_at ≤ since + policy.recover_within)
  unfolding evaluate_hysteresis reduce covered reset_timer reduce_qualified reduce_weakening
      transition transition_lifecycle
  recovery_window d since h at w up = ground arith
