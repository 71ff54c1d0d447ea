-- ===== src/Realtime/Hysteresis/Decisions.antt =====
-- What one call of `evaluate_hysteresis` (packages/realtime/hysteresis.py) does, on every branch.
use dayjaview.Prelude.{
  ◌<◌, ◌≤◌, ◌≡◌, ◌≢◌, refl, true, false, some, String, arith, ne-empty_of_not_blank, ◌⊎◌, inl, sym,
  none, ◌∙◌,
}
use dayjaview.Prelude.Exec.{Result, raised, value_error, hysteresis_input_conflict, ok, Returns}
use dayjaview.Domain.State.Graph.{◌⟶◌}
use dayjaview.Realtime.Hysteresis.Models.{
  HysteresisDecision, HysteresisPolicy, check_policy, ActivationEvaluation, HysteresisState,
  HysteresisDisposition, transitioned, no_transition, duplicate, stale_sequence, stale_time,
  terminal,
}
use dayjaview.Realtime.Hysteresis.Reduce.{advance, reduce, is_before, evaluate_hysteresis}
use dayjaview.Realtime.Hysteresis.Causes.{Judged, reduce-Judged}
use dayjaview.Realtime.Hysteresis.Consistency.{is_accepted, IsConsistent, Reduced, reduce_succeeds}

check_policy-named : (p : HysteresisPolicy) → check_policy p ≡ ok tt → p.version ≢ ""
unfolding check_policy
check_policy-named p h = ne-empty_of_not_blank p.version (ground arith)

module _ (fingerprint : ActivationEvaluation → String) (policy : HysteresisPolicy)
    (s : HysteresisState) (e : ActivationEvaluation) where
  -- Neither a duplicate of the last input, nor older than it.
  abbrev pub IsFresh : Type 0
  IsFresh =
      (s.policy_version ≡ policy.version)
      × (e.policy_version ≡ policy.version)
      × (s.last_input_id ≢ some e.input_id)
      × (s.last_sequence < e.sequence)
      × (is_before e.evaluated_at s.last_evaluated_at ≡ false)

  advance-IsConsistent :
      IsConsistent s
      → is_before e.evaluated_at s.last_evaluated_at ≡ false
      → IsConsistent (advance (fingerprint e) s e)
  advance-IsConsistent c h = ground arith

  -- The input is new, and the state has recorded it. The status has moved along an edge of the
  -- diagram, which the decision reports, for a cause of the policy; or it has stayed, because there
  -- was none.
  pub record Advances (d : HysteresisDecision) : Type 0 where
    pub consistent : IsConsistent d.state
    pub judged : Judged policy s e s.lifecycle_status d
    pub follows :
        ((d.disposition ≡ transitioned) × (s.lifecycle_status ⟶ d.state.lifecycle_status))
        ⊎ ((d.disposition ≢ transitioned) × (d.state.lifecycle_status ≡ s.lifecycle_status))
    pub same_policy : s.policy_version ≡ policy.version
    pub input_policy : e.policy_version ≡ policy.version
    pub new_input : s.last_input_id ≢ some e.input_id
    pub older : s.last_sequence < e.sequence
    pub not_before : is_before e.evaluated_at s.last_evaluated_at ≡ false
    pub sequence : d.state.last_sequence ≡ e.sequence
    pub evaluated_at : d.state.last_evaluated_at ≡ some e.evaluated_at
    pub input_id : d.state.last_input_id ≡ some e.input_id
    pub input_fingerprint : d.state.last_input_fingerprint ≡ some (fingerprint e)
    pub policy_version : d.state.policy_version ≡ s.policy_version
    pub theme_id : d.state.theme_id ≡ s.theme_id

  -- Both versions are that of the policy.
  abbrev pub SamePolicy : Type 0
  SamePolicy = (s.policy_version ≡ policy.version) × (e.policy_version ≡ policy.version)

  -- Why an input is passed over: it is the last input again, with the same content; or another one,
  -- with a sequence number that is not greater; or with a greater one, but an earlier time.
  abbrev pub PassedOver : HysteresisDisposition → Type 0
  PassedOver duplicate =
      (s.last_input_id ≡ some e.input_id) × (s.last_input_fingerprint ≡ some (fingerprint e))
  PassedOver stale_sequence = (s.last_input_id ≢ some e.input_id) × (e.sequence ≤ s.last_sequence)
  PassedOver stale_time =
      (s.last_input_id ≢ some e.input_id)
      × (s.last_sequence < e.sequence)
      × (is_before e.evaluated_at s.last_evaluated_at ≡ true)
  PassedOver transitioned = ⊥
  PassedOver no_transition = ⊥
  PassedOver terminal = ⊥

  abbrev pub Outcome : Result HysteresisDecision → Type 0
  Outcome (ok d) =
      ((is_accepted d.disposition ≡ true) × Advances d)
      ⊎ (SamePolicy × PassedOver d.disposition × (d.state ≡ s) × (d.transition ≡ none))
  Outcome (raised x) =
      ((x ≡ value_error)
        × ((s.policy_version ≢ policy.version) ⊎ (e.policy_version ≢ policy.version)))
      ⊎ ((x ≡ hysteresis_input_conflict)
          × SamePolicy
          × (s.last_input_id ≡ some e.input_id)
          × (s.last_input_fingerprint ≢ some (fingerprint e)))

  Reduced-Advances :
      (d : HysteresisDecision)
      → IsFresh
      → Reduced (advance (fingerprint e) s e) e d
      → Judged policy s e s.lifecycle_status d
      → Advances d
  Reduced-Advances d f r j = record {
    judged = j;
    new_input = f.2;
    consistent = r.consistent;
    follows = r.follows;
    same_policy = f.0;
    input_policy = f.1;
    older = f.3;
    not_before = f.4;
    sequence = r.sequence;
    evaluated_at = r.evaluated_at;
    input_id = r.input_id;
    input_fingerprint = r.fingerprint;
    policy_version = r.policy_version;
    theme_id = r.theme_id;
  }

  Returns-Outcome :
      (r : Result HysteresisDecision)
      → IsFresh
      → Returns (Reduced (advance (fingerprint e) s e) e) r
      → reduce policy (advance (fingerprint e) s e) e ≡ r
      → Outcome r
  Returns-Outcome (ok d) f r q = inl (
    r.accepted,
    Reduced-Advances d f r (reduce-Judged policy (advance (fingerprint e) s e) e d q),
  )
  Returns-Outcome (raised x) f r q = absurd r

  fresh-Outcome :
      policy.version ≢ ""
      → IsConsistent s
      → IsFresh
      → Outcome (reduce policy (advance (fingerprint e) s e) e)
  fresh-Outcome named c f =
      Returns-Outcome _ f
        (reduce_succeeds policy (advance (fingerprint e) s e) e (λ p. named (sym f.0 ∙ p)) refl refl
          (advance-IsConsistent c f.4))
        refl

  -- From a consistent state and under a valid policy, an input is refused only for a policy version
  -- that differs or, under the same version, for the last input id with another content. It changes
  -- nothing if it is the last input again with the same content, if it is another one whose sequence
  -- number is not greater, or if that is greater but the time is earlier. Otherwise it is recorded,
  -- and the status moves along the diagram when the verdict and the timers of the policy ask for it,
  -- and stays, with its timer kept, started or stopped, when they do not.
  pub evaluate_hysteresis-Outcome :
      check_policy policy ≡ ok tt
      → IsConsistent s
      → Outcome (evaluate_hysteresis fingerprint policy s e)
  unfolding evaluate_hysteresis
  evaluate_hysteresis-Outcome valid c =
      ground (arith, fresh-Outcome (check_policy-named policy valid) c)
