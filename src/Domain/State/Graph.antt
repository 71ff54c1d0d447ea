-- ===== src/Domain/State/Graph.antt =====
-- The transition tables as graphs.
use dayjaview.Prelude.{◌⊎◌, inl, inr, sym, ◌∙◌, ◌≡◌, ◌≢◌, String, some, arith, refl}
use dayjaview.Prelude.Exec.{Result, Exception, ok, raised, invalid_state_transition}
use dayjaview.Domain.State.{
  LifecycleStatus, candidate, active, weakening, closed, discarded, StateTransition, lifecycle,
  lifecycle_value, transition_lifecycle, ReconciliationStatus, transition_reconciliation, matched,
  unmatched,
}

-- The edges that the state diagram draws.
infix 40 ◌⟶◌ ◌⟶*◌
pub data ◌⟶◌ : LifecycleStatus → LifecycleStatus → Type 0 where
  activate : candidate ⟶ active
  discard : candidate ⟶ discarded
  weaken : active ⟶ weakening
  close : active ⟶ closed
  recover : weakening ⟶ active
  expire : weakening ⟶ closed

pub data ◌⟶*◌ : LifecycleStatus → LifecycleStatus → Type 0 where
  here : {s : LifecycleStatus} → s ⟶* s
  next : {s t u : LifecycleStatus} → s ⟶ t → t ⟶* u → s ⟶* u

ruleset edges = (activate, discard, weaken, close, recover, expire)

-- No edge leads back to `candidate`.
pub ⟶-ne-candidate : {s t : LifecycleStatus} → s ⟶ t → t ≢ candidate
⟶-ne-candidate activate q = ground arith
⟶-ne-candidate discard q = ground arith
⟶-ne-candidate weaken q = ground arith
⟶-ne-candidate close q = ground arith
⟶-ne-candidate recover q = ground arith
⟶-ne-candidate expire q = ground arith

-- The lifecycle transition that the caller is handed.
abbrev pub lifecycle_record : LifecycleStatus → LifecycleStatus → String → StateTransition
lifecycle_record s t policy = record {
  axis = lifecycle;
  from_status = some (lifecycle_value s);
  to_status = lifecycle_value t;
  policy_version = policy;
}

pub transition_lifecycle_edge :
    (s t : LifecycleStatus) (policy : String)
    → policy ≢ ""
    → s ⟶ t
    → transition_lifecycle s t policy ≡ ok (lifecycle_record s t policy)
unfolding transition_lifecycle
transition_lifecycle_edge s t policy h activate = ground arith
transition_lifecycle_edge s t policy h discard = ground arith
transition_lifecycle_edge s t policy h weaken = ground arith
transition_lifecycle_edge s t policy h close = ground arith
transition_lifecycle_edge s t policy h recover = ground arith
transition_lifecycle_edge s t policy h expire = ground arith

pub transition_lifecycle_non_edge :
    (s t : LifecycleStatus) (policy : String)
    → ¬ (s ⟶ t)
    → transition_lifecycle s t policy ≡ raised invalid_state_transition
unfolding transition_lifecycle
transition_lifecycle_non_edge candidate active policy h = absurd (h activate)
transition_lifecycle_non_edge candidate discarded policy h = absurd (h discard)
transition_lifecycle_non_edge active weakening policy h = absurd (h weaken)
transition_lifecycle_non_edge active closed policy h = absurd (h close)
transition_lifecycle_non_edge weakening active policy h = absurd (h recover)
transition_lifecycle_non_edge weakening closed policy h = absurd (h expire)
transition_lifecycle_non_edge s t policy h = refl

-- From every status but `discarded` the diagram has a way to `closed`.
pub ⟶*-closed : (s : LifecycleStatus) → s ≢ discarded → s ⟶* closed
⟶*-closed discarded h = absurd (h refl)
⟶*-closed closed h = here
⟶*-closed _ h = search (here, next, edges)

pub transition_lifecycle-eq-ok :
    (s t : LifecycleStatus) (policy : String) {x : StateTransition}
    → transition_lifecycle s t policy ≡ ok x
    → s ⟶ t
unfolding transition_lifecycle
transition_lifecycle-eq-ok candidate active policy h = activate
transition_lifecycle-eq-ok candidate discarded policy h = discard
transition_lifecycle-eq-ok active weakening policy h = weaken
transition_lifecycle-eq-ok active closed policy h = close
transition_lifecycle-eq-ok weakening active policy h = recover
transition_lifecycle-eq-ok weakening closed policy h = expire
transition_lifecycle-eq-ok s t policy h = ground arith

raised-ne-ok : {A : Type 0} {e : Exception} {a : A} → raised e ≢ ok a
raised-ne-ok q = ground arith

-- With a policy version given, a lifecycle transition is accepted exactly along an edge of the
-- diagram: on an edge it records both statuses, and off the diagram it raises.
pub transition_lifecycle_exact :
    (s t : LifecycleStatus) (policy : String)
    → policy ≢ ""
    → ((s ⟶ t) × (transition_lifecycle s t policy ≡ ok (lifecycle_record s t policy)))
      ⊎ (¬ (s ⟶ t) × (transition_lifecycle s t policy ≡ raised invalid_state_transition))
transition_lifecycle_exact s t policy h = decided (transition_lifecycle s t policy) refl
  where
    decided :
        (r : Result StateTransition)
        → transition_lifecycle s t policy ≡ r
        → ((s ⟶ t) × (transition_lifecycle s t policy ≡ ok (lifecycle_record s t policy)))
          ⊎ (¬ (s ⟶ t) × (transition_lifecycle s t policy ≡ raised invalid_state_transition))
    decided (ok x) q =
        let edge = transition_lifecycle-eq-ok s t policy q in
        inl (edge, transition_lifecycle_edge s t policy h edge)
    decided (raised e) q =
        let off : ¬ (s ⟶ t) =
          λ edge. raised-ne-ok (sym q ∙ transition_lifecycle_edge s t policy h edge) in
        inr (off, transition_lifecycle_non_edge s t policy off)

-- Reconciliation after the close: an Event waits, is found, or is not.
infix 40 ◌⇢◌
pub data ◌⇢◌ : ReconciliationStatus → ReconciliationStatus → Type 0 where
  match_pending : ReconciliationStatus.pending ⇢ matched
  miss_pending : ReconciliationStatus.pending ⇢ unmatched
  match_later : unmatched ⇢ matched

pub transition_reconciliation-eq-ok :
    (s t : ReconciliationStatus) (policy : String) {x : StateTransition}
    → transition_reconciliation s t policy ≡ ok x
    → s ⇢ t
unfolding transition_reconciliation
transition_reconciliation-eq-ok ReconciliationStatus.pending matched policy h = match_pending
transition_reconciliation-eq-ok ReconciliationStatus.pending unmatched policy h = miss_pending
transition_reconciliation-eq-ok unmatched matched policy h = match_later
transition_reconciliation-eq-ok s t policy h = ground arith
