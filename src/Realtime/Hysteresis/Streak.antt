-- ===== src/Realtime/Hysteresis/Streak.antt =====
-- Sequences of inputs to packages/realtime/hysteresis.py: replays, and how long a theme has to
-- qualify before it is activated.
use dayjaview.Prelude.{
  ℕ, ◌+◌, ◌≤◌, ◌≡◌, Bool, true, false, ◌&&◌, Option, none, some, List, [], ◌∷◌, String, arith,
  get_or, if◌then◌else◌, inl, inr, sym, ◌∙◌, ap,
}
use dayjaview.Prelude.Exec.{Result, ok, raised, and_then, and_then-eq-ok}
use dayjaview.Domain.State.{candidate, active, transition_lifecycle}
use dayjaview.Domain.State.Graph.{⟶-ne-candidate}
use dayjaview.Domain.Coverage.{CoverageStatus, sufficient, partial, insufficient}
use dayjaview.Realtime.Hysteresis.Models.{
  HysteresisPolicy, check_policy, ActivationEvaluation, HysteresisState, HysteresisDecision,
  duplicate, candidate_state,
}
use dayjaview.Realtime.Hysteresis.Reduce.{
  reduce, reduce_qualified, reduce_candidate, transition, evaluate_hysteresis, decide_nothing,
  covered, reset_timer, advance,
}
use dayjaview.Realtime.Hysteresis.Consistency.{is_accepted, IsConsistent}
use dayjaview.Realtime.Hysteresis.Decisions.{Advances, Outcome, evaluate_hysteresis-Outcome}

-- An input that counts towards activation.
abbrev is_sufficient : CoverageStatus → Bool
is_sufficient sufficient = true
is_sufficient partial = false
is_sufficient insufficient = false

abbrev pub counts : ActivationEvaluation → Bool
counts e = is_sufficient e.coverage_status && get_or e.qualifies false

-- When the unbroken run of counting inputs began, newest input first.
abbrev pub streak_start : List ActivationEvaluation → Option ℕ
streak_start [] = none
streak_start (e ∷ es) = if counts e then some (get_or (streak_start es) e.evaluated_at) else none

module _ (fingerprint : ActivationEvaluation → String) (policy : HysteresisPolicy) where
  -- A reducer that is fed input after input, with the accepted inputs, newest first.
  unfoldable pub run :
      HysteresisState
      → List ActivationEvaluation
      → List ActivationEvaluation
      → Result (HysteresisState × List ActivationEvaluation)
  run s accepted [] = ok (s, accepted)
  run s accepted (e ∷ es) =
      and_then (evaluate_hysteresis fingerprint policy s e)
        (λ d. run d.state (if is_accepted d.disposition then e ∷ accepted else accepted) es)

  accepted-Advances :
      (s : HysteresisState) (e : ActivationEvaluation) (d : HysteresisDecision)
      (r : Result HysteresisDecision)
      → r ≡ ok d
      → is_accepted d.disposition ≡ true
      → Outcome fingerprint policy s e r
      → Advances fingerprint policy s e d
  accepted-Advances s e d (ok d') h accepted o = ground arith
  accepted-Advances s e d (raised x) h accepted o = ground arith

  -- Under a valid policy and from a consistent state, an accepted input that comes again is a
  -- duplicate, and changes nothing.
  pub evaluate_again :
      (s : HysteresisState) (e : ActivationEvaluation) (d : HysteresisDecision)
      → check_policy policy ≡ ok tt
      → IsConsistent s
      → evaluate_hysteresis fingerprint policy s e ≡ ok d
      → is_accepted d.disposition ≡ true
      → evaluate_hysteresis fingerprint policy d.state e ≡ ok (decide_nothing d.state duplicate)
  evaluate_again s e d valid c h accepted =
      let a =
        accepted-Advances s e d _ h accepted
          (evaluate_hysteresis-Outcome fingerprint policy s e valid c) in
      repeated a
    where
      repeated :
          Advances fingerprint policy s e d
          → evaluate_hysteresis fingerprint policy d.state e ≡ ok (decide_nothing d.state duplicate)
      repeated a = unfold evaluate_hysteresis in ground arith

module _ (policy : HysteresisPolicy) (s : HysteresisState) (e : ActivationEvaluation)
    (d : HysteresisDecision) (at : s.lifecycle_status ≡ candidate)
    (h : reduce policy s e ≡ ok d) where
  candidate_kept :
      d.state.lifecycle_status ≡ candidate
      → d.state.candidate_since
        ≡ (if counts e then some (get_or s.candidate_since e.evaluated_at) else none)
  unfolding reduce covered reset_timer reduce_qualified reduce_candidate transition
      transition_lifecycle
  candidate_kept k = ground arith

  candidate_activated :
      d.state.lifecycle_status ≡ active
      → (counts e ≡ true)
        × (get_or s.candidate_since e.evaluated_at + policy.activate_after ≤ e.evaluated_at)
  unfolding reduce covered reset_timer reduce_qualified reduce_candidate transition
      transition_lifecycle
  candidate_activated k = ground arith

-- The timer of a candidate is the start of its streak.
abbrev Tracked : HysteresisState → List ActivationEvaluation → Type 0
Tracked s accepted =
    IsConsistent s × (s.lifecycle_status ≡ candidate → s.candidate_since ≡ streak_start accepted)

accepted_reduce :
    (fingerprint : ActivationEvaluation → String) (policy : HysteresisPolicy) (s : HysteresisState)
    (e : ActivationEvaluation) (d : HysteresisDecision)
    → evaluate_hysteresis fingerprint policy s e ≡ ok d
    → is_accepted d.disposition ≡ true
    → reduce policy (advance (fingerprint e) s e) e ≡ ok d
unfolding evaluate_hysteresis
accepted_reduce fingerprint policy s e d h accepted = ground arith

module _ (fingerprint : ActivationEvaluation → String) (policy : HysteresisPolicy)
    (valid : check_policy policy ≡ ok tt) where
  abbrev noted :
      HysteresisDecision
      → ActivationEvaluation
      → List ActivationEvaluation
      → List ActivationEvaluation
  noted d e accepted = if is_accepted d.disposition then e ∷ accepted else accepted

  evaluate-Tracked :
      (s : HysteresisState) (e : ActivationEvaluation) (d : HysteresisDecision)
      (accepted : List ActivationEvaluation)
      → evaluate_hysteresis fingerprint policy s e ≡ ok d
      → Tracked s accepted
      → Tracked d.state (noted d e accepted)
  evaluate-Tracked s e d accepted h t =
      Tracked_of_Outcome (evaluate_hysteresis fingerprint policy s e) h
        (evaluate_hysteresis-Outcome fingerprint policy s e valid t.0)
    where
      from_candidate :
          Advances fingerprint policy s e d
          → d.state.lifecycle_status ≡ candidate
          → s.lifecycle_status ≡ candidate
      from_candidate a k = elim a.follows [
        | inl (_, edge) ↦ absurd (⟶-ne-candidate edge k)
        | inr (_, same) ↦ sym same ∙ k
      ]

      advanced :
          is_accepted d.disposition ≡ true
          → Advances fingerprint policy s e d
          → Tracked d.state (e ∷ accepted)
      advanced kept a = (
        a.consistent,
        λ k.
            let at = from_candidate a k in
            candidate_kept policy (advance (fingerprint e) s e) e d at
              (accepted_reduce fingerprint policy s e d h kept) k
            ∙ ap (λ (o : Option ℕ). if counts e then some (get_or o e.evaluated_at) else none)
                (t.1 at),
      )

      Tracked_of_Outcome :
          (r : Result HysteresisDecision)
          → r ≡ ok d
          → Outcome fingerprint policy s e r
          → Tracked d.state (noted d e accepted)
      Tracked_of_Outcome (ok d') q o = ground (arith, advanced)
      Tracked_of_Outcome (raised x) q o = ground arith

  run-Tracked :
      (s : HysteresisState) (accepted es : List ActivationEvaluation) (s' : HysteresisState)
      (accepted' : List ActivationEvaluation)
      → run fingerprint policy s accepted es ≡ ok (s', accepted')
      → Tracked s accepted
      → Tracked s' accepted'
  unfolding run
  run-Tracked s accepted [] s' accepted' h t = ground arith
  run-Tracked s accepted (e ∷ es) s' accepted' h t =
      let (d, first, rest) = and_then-eq-ok (evaluate_hysteresis fingerprint policy s e) _ h in
      run-Tracked d.state (noted d e accepted) es s' accepted' rest
        (evaluate-Tracked s e d accepted first t)

  candidate_state-Tracked : (theme : String) → Tracked (candidate_state theme policy) []
  unfolding candidate_state
  candidate_state-Tracked theme = ground arith

  -- Under a valid policy, a new candidate that is fed any inputs and is still a candidate times its
  -- streak: the unbroken
  -- run of accepted inputs, up to the last one, that qualified with sufficient coverage.
  pub run-candidate_since :
      (theme : String) (es : List ActivationEvaluation) (s : HysteresisState)
      (accepted : List ActivationEvaluation)
      → run fingerprint policy (candidate_state theme policy) [] es ≡ ok (s, accepted)
      → s.lifecycle_status ≡ candidate
      → s.candidate_since ≡ streak_start accepted
  run-candidate_since theme es s accepted h =
      (run-Tracked _ [] es s accepted h (candidate_state-Tracked theme)).1

  moved_accepted :
      (s : HysteresisState) (e : ActivationEvaluation) (d : HysteresisDecision)
      (r : Result HysteresisDecision)
      → r ≡ ok d
      → Outcome fingerprint policy s e r
      → s.lifecycle_status ≡ candidate
      → d.state.lifecycle_status ≡ active
      → is_accepted d.disposition ≡ true
  moved_accepted s e d (ok d') q o at up = ground arith
  moved_accepted s e d (raised x) q o at up = ground arith

  -- Under a valid policy, a new candidate that was fed any inputs and is still a candidate becomes
  -- active only by an input that ends a streak of accepted inputs that qualify with sufficient
  -- coverage, and the streak has lasted `activate_after` or longer.
  pub activation_sustained :
      (theme : String) (es : List ActivationEvaluation) (s : HysteresisState)
      (accepted : List ActivationEvaluation) (e : ActivationEvaluation) (d : HysteresisDecision)
      → run fingerprint policy (candidate_state theme policy) [] es ≡ ok (s, accepted)
      → s.lifecycle_status ≡ candidate
      → evaluate_hysteresis fingerprint policy s e ≡ ok d
      → d.state.lifecycle_status ≡ active
      → (since : ℕ) × (streak_start (e ∷ accepted) ≡ some since)
        × (since + policy.activate_after ≤ e.evaluated_at)
  activation_sustained theme es s accepted e d h at step up =
      let tracked = run-Tracked _ [] es s accepted h (candidate_state-Tracked theme) in
      let outcome = evaluate_hysteresis-Outcome fingerprint policy s e valid tracked.0 in
      let kept = moved_accepted s e d _ step outcome at up in
      let reduced = accepted_reduce fingerprint policy s e d step kept in
      let since_s = tracked.1 at in
      let long = candidate_activated policy (advance (fingerprint e) s e) e d at reduced up in
      (get_or (streak_start accepted) e.evaluated_at, ground arith, ground arith)
