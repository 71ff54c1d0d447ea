-- ===== src/Events/Writer/Atomic.antt =====
-- Whole transactions of packages/events/writer.py over packages/events/memory.py.
use dayjaview.Prelude.{
  ◌⊎◌, true, ◌≡◌, refl, ap, ℕ, false, List, String, String-discrete, arith, Option-cases, ◌∙◌, inl,
  inr,
}
use dayjaview.Prelude.Dict.{get}
use dayjaview.Prelude.Exec.{
  simulated_commit_failure, Result, ok, raised, Exception, Exec, ◌>>=◌, lift, continued,
  bind-eq-continued, pure, ◌>>◌, construct,
}
use dayjaview.Domain.State.{transition_lifecycle, transition_reconciliation}
use dayjaview.Events.Writer.Effects.{commit_move, commit_reconciliation, reconcile_from}
use dayjaview.Events.Models.{
  EventClassification, check_event, check_classification, CommandReceipt, EventCommand,
  create_event, transition_event, reconcile_event, Digests, CanonicalEvent, EventInputMetadata,
  EventStateLog, CreateEventCommand, TransitionLifecycleCommand, ReconcileEventCommand,
}
use dayjaview.Events.Store.{
  EventStore, transaction, save_receipt, insert_event, update_event, append_state_log,
}
use dayjaview.Events.Writer.{
  moved, reconciled, lifecycle_log, reconciliation_log, lifecycle_payload, reconciliation_payload,
  reclassify, receipt_of, judge, announce, create_new, create, commit_change, transition_passed,
  transition, reconcile_passed, reconcile, carry_out, dispatch, write_body, write, ℕ, PayloadValue,
}

-- A method that does not arm or disarm the commit failure, whether it returns or raises.
abbrev pub Steady : {A : Type 0} → Exec EventStore A → Type 0
Steady body = (s : EventStore) → (body s).1.fail_next_commit ≡ s.fail_next_commit

continued-Steady :
    {A B : Type 0} (f : A → Exec EventStore B)
    → ((a : A) → Steady (f a))
    → (p : Result A × EventStore) → (continued f p).1.fail_next_commit ≡ p.1.fail_next_commit
continued-Steady f k (ok a, t) = k a t
continued-Steady f k (raised e, t) = refl

Steady-bind :
    {A B : Type 0} (m : Exec EventStore A) (f : A → Exec EventStore B)
    → Steady m
    → ((a : A) → Steady (f a))
    → Steady (m >>= f)
Steady-bind m f h k s =
    ap (λ p. p.1.fail_next_commit) (bind-eq-continued m f s) ∙ continued-Steady f k (m s) ∙ h s

Steady-lift-bind :
    {A B : Type 0} (r : Result A) (f : A → Exec EventStore B)
    → ((a : A) → Steady (f a))
    → Steady (lift r >>= f)
Steady-lift-bind r f k = Steady-bind (lift r) f (λ s. refl) k

insert_event-Steady : (event : CanonicalEvent) → Steady (insert_event event)
unfolding insert_event
insert_event-Steady event s = ground arith

update_event-Steady : (event : CanonicalEvent) (n : ℕ) → Steady (update_event event n)
unfolding update_event
update_event-Steady event n s = ground arith

append_state_log-Steady : (log : EventStateLog) → Steady (append_state_log log)
unfolding append_state_log
append_state_log-Steady log s = ground arith

save_receipt-Steady : (receipt : CommandReceipt) → Steady (save_receipt receipt)
unfolding save_receipt
save_receipt-Steady receipt s = ground arith

module _ (d : Digests) where
  announce-Steady :
      (event : CanonicalEvent) (metadata : EventInputMetadata) (kind : String)
      (payload : List (String × PayloadValue))
      → Steady (announce d event metadata kind payload)
  unfolding announce
  announce-Steady event metadata kind payload s = ground arith

  commit_change-Steady :
      (updated : CanonicalEvent) (log : EventStateLog) (metadata : EventInputMetadata)
      (kind : String) (payload : List (String × PayloadValue)) (expected : ℕ)
      → Steady (commit_change d updated log metadata kind payload expected)
  unfolding commit_change
  commit_change-Steady updated log metadata kind payload expected s = ground arith

  create_new-Steady : (c : CreateEventCommand) → Steady (create_new d c)
  unfolding create_new check_event check_classification
  create_new-Steady c s = ground arith

  create-Steady : (c : CreateEventCommand) → Steady (create d c)
  unfolding create
  create-Steady c s = ground (arith, create_new-Steady c s)

  transition_passed-Steady :
      (c : TransitionLifecycleCommand) (event : CanonicalEvent)
      → Steady (transition_passed d c event)
  unfolding transition_passed
  transition_passed-Steady c event =
      let built = construct check_event (moved event c) in
      Steady-lift-bind (transition_lifecycle event.lifecycle_status c.target c.policy_version)
        (λ _. lift built >>= commit_move d c event)
        (λ _. Steady-lift-bind built (commit_move d c event) (λ updated.
          commit_change-Steady updated (lifecycle_log c event updated) c.metadata
            "canonical_event.lifecycle_changed" (lifecycle_payload c event updated)
            event.state_version))

  reconcile_from-Steady :
      (c : ReconcileEventCommand) (event : CanonicalEvent) (k : EventClassification)
      → Steady (reconcile_from d c event k)
  reconcile_from-Steady c event k =
      Steady-lift-bind (construct check_event (reconciled event c k))
        (commit_reconciliation d c event)
        (λ updated.
          commit_change-Steady updated (reconciliation_log c event updated) c.metadata
            "canonical_event.reconciled" (reconciliation_payload c event updated)
            event.state_version)

  reconcile_passed-Steady :
      (c : ReconcileEventCommand) (event : CanonicalEvent) → Steady (reconcile_passed d c event)
  unfolding reconcile_passed
  reconcile_passed-Steady c event =
      let built =
        construct check_classification
          (reclassify c.target c.metadata.occurred_at event.classification) in
      Steady-lift-bind
        (transition_reconciliation event.reconciliation_status c.target c.policy_version)
        (λ _. lift built >>= reconcile_from d c event)
        (λ _. Steady-lift-bind built (reconcile_from d c event) (reconcile_from-Steady c event))

  transition-Steady : (c : TransitionLifecycleCommand) → Steady (transition d c)
  unfolding transition judge
  transition-Steady c s = elim (Option-cases (get String-discrete c.event_id s.events)) [
    | inl absent ↦ ground arith
    | inr (event, present) ↦ ground (arith, transition_passed-Steady c event s)
  ]

  reconcile-Steady : (c : ReconcileEventCommand) → Steady (reconcile d c)
  unfolding reconcile judge
  reconcile-Steady c s = elim (Option-cases (get String-discrete c.event_id s.events)) [
    | inl absent ↦ ground arith
    | inr (event, present) ↦ ground (arith, reconcile_passed-Steady c event s)
  ]

  dispatch-Steady : (c : EventCommand) → Steady (dispatch d c)
  unfolding dispatch
  dispatch-Steady (create_event c) = create-Steady c
  dispatch-Steady (transition_event c) = transition-Steady c
  dispatch-Steady (reconcile_event c) = reconcile-Steady c

  carry_out-Steady : (c : EventCommand) → Steady (carry_out d c)
  unfolding carry_out
  carry_out-Steady c =
      Steady-bind (dispatch d c) (λ r. save_receipt (receipt_of d c r) >> pure r)
        (dispatch-Steady c)
        (λ r.
          Steady-bind (save_receipt (receipt_of d c r)) (λ _. pure r)
            (save_receipt-Steady (receipt_of d c r)) (λ _ s. refl))

  pub write_body-Steady : (c : EventCommand) → Steady (write_body d c)
  unfolding write_body
  write_body-Steady c s = ground (arith, carry_out-Steady c s)

  -- A command that raises leaves the store exactly as it was, unless it met an armed commit failure:
  -- then the exception is that failure, and all that has changed is that it is no longer armed.
  pub write_atomic :
      (c : EventCommand) (s s' : EventStore) (e : Exception)
      → write d c s ≡ (raised e, s')
      → (s' ≡ s)
        ⊎ ((e ≡ simulated_commit_failure)
            × (s.fail_next_commit ≡ true)
            × (s' ≡ record s { fail_next_commit = false }))
  unfolding write transaction
  write_atomic c s s' e h = ground (arith, write_body-Steady c s)
