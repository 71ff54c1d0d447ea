-- ===== src/Events/Writer/Effects.antt =====
-- What a command that packages/events/writer.py carries out changes in the store.
use dayjaview.Prelude.{
  ℕ, ◌+◌, ◌≤◌, ◌≡◌, ◌≢◌, ◌⊎◌, inl, inr, true, none, some, List, [], ◌∷◌, ◌++◌, String,
  String-discrete, arith, Option-cases,
}
use dayjaview.Prelude.Dict.{get, put}
use dayjaview.Prelude.Exec.{ok, Exec, ◌>>=◌, lift-bind-eq-ok, construct, construct-bind-eq-ok, lift}
use dayjaview.Domain.State.{transition_lifecycle, transition_reconciliation}
use dayjaview.Domain.State.Graph.{
  ◌⟶◌, ◌⇢◌, transition_lifecycle-eq-ok, transition_reconciliation-eq-ok,
}
use dayjaview.Events.Models.{
  EventInputMetadata, CanonicalEvent, CreateEventCommand, TransitionLifecycleCommand,
  ReconcileEventCommand, applied, EventWriteResult, EventStateLog, Digests, check_event,
  check_classification, EventClassification, duplicate_identity,
}
use dayjaview.Events.Outbox.{PayloadValue}
use dayjaview.Events.Store.{EventStore, has_version}
use dayjaview.Events.Writer.{
  announce, first_event, first_log, create_new, create, commit_change, transition_passed,
  transition, reconcile_passed, reconcile, judge, reclassify, moved, reconciled, lifecycle_log,
  reconciliation_log, lifecycle_payload, reconciliation_payload,
}

-- The parts of the store that only `announce` leaves alone.
pub record SameButOutbox (s s' : EventStore) : Type 0 where
  pub events : s'.events ≡ s.events
  pub identities : s'.identities ≡ s.identities
  pub state_logs : s'.state_logs ≡ s.state_logs
  pub receipts : s'.receipts ≡ s.receipts
  pub source_sequences : s'.source_sequences ≡ s.source_sequences
  pub fail_next_commit : s'.fail_next_commit ≡ s.fail_next_commit

module _ (d : Digests) where
  pub announce_lem :
      (event : CanonicalEvent) (metadata : EventInputMetadata) (kind : String)
      (payload : List (String × PayloadValue)) (s s' : EventStore) (r : EventWriteResult)
      → announce d event metadata kind payload s ≡ (ok r, s')
      → SameButOutbox s s' × (r.event ≡ event) × (r.disposition ≡ applied)
  unfolding announce
  announce_lem event metadata kind payload s s' r h = ground arith

  -- A change that succeeded found the Event at the version before, and a log without the new one.
  pub record Changed (updated : CanonicalEvent) (log : EventStateLog) (expected : ℕ)
      (s s' : EventStore) (r : EventWriteResult) : Type 0 where
    pub current : has_version (get String-discrete updated.event_id s.events) expected ≡ true
    pub next : updated.state_version ≡ expected + 1
    pub events : s'.events ≡ put String-discrete updated.event_id updated s.events
    pub identities : s'.identities ≡ s.identities
    pub state_logs : s'.state_logs ≡ s.state_logs ++ log ∷ []
    pub receipts : s'.receipts ≡ s.receipts
    pub source_sequences : s'.source_sequences ≡ s.source_sequences
    pub fail_next_commit : s'.fail_next_commit ≡ s.fail_next_commit
    pub event : r.event ≡ updated
    pub disposition : r.disposition ≡ applied

  pub commit_change_lem :
      (updated : CanonicalEvent) (log : EventStateLog) (metadata : EventInputMetadata)
      (kind : String) (payload : List (String × PayloadValue)) (expected : ℕ) (s s' : EventStore)
      (r : EventWriteResult)
      → commit_change d updated log metadata kind payload expected s ≡ (ok r, s')
      → Changed updated log expected s s' r
  unfolding commit_change
  commit_change_lem updated log metadata kind payload expected s s' r h = ground (
    arith,
    announce_lem updated metadata kind payload
        (record s {
          events = put String-discrete updated.event_id updated s.events;
          state_logs = s.state_logs ++ log ∷ [];
        })
        s' r,
  )

  pub record Created (c : CreateEventCommand) (s s' : EventStore) (r : EventWriteResult)
      : Type 0 where
    pub new_event : get String-discrete (d.event_id c.identity) s.events ≡ none
    pub new_identity : get String-discrete (d.identity_key c.identity) s.identities ≡ none
    pub events : s'.events ≡ put String-discrete (d.event_id c.identity) (first_event d c) s.events
    pub identities :
        s'.identities
        ≡ put String-discrete (d.identity_key c.identity) (d.event_id c.identity) s.identities
    pub state_logs : s'.state_logs ≡ s.state_logs ++ first_log d c (first_event d c) ∷ []
    pub receipts : s'.receipts ≡ s.receipts
    pub source_sequences : s'.source_sequences ≡ s.source_sequences
    pub fail_next_commit : s'.fail_next_commit ≡ s.fail_next_commit
    pub event : r.event ≡ first_event d c
    pub disposition : r.disposition ≡ applied

  pub create_new_lem :
      (c : CreateEventCommand) (s s' : EventStore) (r : EventWriteResult)
      → create_new d c s ≡ (ok r, s')
      → Created c s s' r
  unfolding create_new check_event check_classification
  create_new_lem c s s' r h = ground arith

  -- A create command whose identity an Event has already.
  pub record Existing (c : CreateEventCommand) (s s' : EventStore) (r : EventWriteResult)
      : Type 0 where
    pub indexed : get String-discrete (d.identity_key c.identity) s.identities ≢ none
    pub disposition : r.disposition ≡ duplicate_identity
    pub same : s' ≡ s

  pub create_lem :
      (c : CreateEventCommand) (s s' : EventStore) (r : EventWriteResult)
      → create d c s ≡ (ok r, s')
      → Existing c s s' r ⊎ Created c s s' r
  unfolding create
  create_lem c s s' r h =
      elim (Option-cases (get String-discrete (d.identity_key c.identity) s.identities)) [
        | inl absent ↦ ground (arith, create_new_lem c s s' r)
        | inr (event_id, present) ↦ elim (Option-cases (get String-discrete event_id s.events)) [
          | inl missing ↦ ground arith
          | inr (event, found) ↦ ground arith
        ]
      ]

  -- A command that the guards turned away.
  pub record Refused (event_id : String) (s s' : EventStore) (r : EventWriteResult) : Type 0 where
    pub present : get String-discrete event_id s.events ≡ some r.event
    pub disposition : r.disposition ≢ applied
    pub same : s' ≡ s

  -- A lifecycle change that was carried out.
  pub record Moved (c : TransitionLifecycleCommand) (event : CanonicalEvent) (s s' : EventStore)
      (r : EventWriteResult) : Type 0 where
    pub before : get String-discrete c.event_id s.events ≡ some event
    pub edge : event.lifecycle_status ⟶ c.target
    pub ordered : event.changed_at ≤ c.metadata.occurred_at
    pub effect :
        Changed (moved event c) (lifecycle_log c event (moved event c)) event.state_version s s' r

  -- What `_commit` is given, as a function of the Event that the constructor returned.
  abbrev pub commit_move :
      TransitionLifecycleCommand
      → CanonicalEvent
      → CanonicalEvent
      → Exec EventStore EventWriteResult
  commit_move c event updated =
      commit_change d updated (lifecycle_log c event updated) c.metadata
        "canonical_event.lifecycle_changed" (lifecycle_payload c event updated) event.state_version

  transition_passed_lem :
      (c : TransitionLifecycleCommand) (event : CanonicalEvent) (s s' : EventStore)
      (r : EventWriteResult)
      → transition_passed d c event s ≡ (ok r, s')
      → (event.lifecycle_status ⟶ c.target)
        × Changed (moved event c) (lifecycle_log c event (moved event c)) event.state_version s s' r
  unfolding transition_passed
  transition_passed_lem c event s s' r h =
      let next = lift (construct check_event (moved event c)) >>= commit_move c event in
      let (x, edge, rest) =
        lift-bind-eq-ok (transition_lifecycle event.lifecycle_status c.target c.policy_version)
          (λ _. next) s h in
      let (valid, done) =
        construct-bind-eq-ok check_event (moved event c) (commit_move c event) s rest in
      (
        transition_lifecycle-eq-ok event.lifecycle_status c.target c.policy_version edge,
        commit_change_lem (moved event c) (lifecycle_log c event (moved event c)) c.metadata
            "canonical_event.lifecycle_changed" (lifecycle_payload c event (moved event c))
            event.state_version s s' r done,
      )

  pub transition_lem :
      (c : TransitionLifecycleCommand) (s s' : EventStore) (r : EventWriteResult)
      → transition d c s ≡ (ok r, s')
      → Refused c.event_id s s' r ⊎ ((event : CanonicalEvent) × Moved c event s s' r)
  unfolding transition judge
  transition_lem c s s' r h = elim (Option-cases (get String-discrete c.event_id s.events)) [
    | inl absent ↦ ground arith
    | inr (event, present) ↦
        let result : Refused c.event_id s s' r ⊎ Moved c event s s' r =
          ground (arith, transition_passed_lem c event s s' r) in
        elim result [ inl p ↦ inl p | inr q ↦ inr (event, q) ]
  ]

  abbrev pub reclassified : ReconcileEventCommand → CanonicalEvent → CanonicalEvent
  reclassified c event =
      reconciled event c (reclassify c.target c.metadata.occurred_at event.classification)

  -- A reconciliation that was carried out.
  pub record Reconciled (c : ReconcileEventCommand) (event : CanonicalEvent) (s s' : EventStore)
      (r : EventWriteResult) : Type 0 where
    pub before : get String-discrete c.event_id s.events ≡ some event
    pub edge : event.reconciliation_status ⇢ c.target
    pub ordered : event.changed_at ≤ c.metadata.occurred_at
    pub effect :
        Changed
          (reclassified c event)
          (reconciliation_log c event (reclassified c event))
          event.state_version
          s
          s'
          r

  abbrev pub commit_reconciliation :
      ReconcileEventCommand → CanonicalEvent → CanonicalEvent → Exec EventStore EventWriteResult
  commit_reconciliation c event updated =
      commit_change d updated (reconciliation_log c event updated) c.metadata
        "canonical_event.reconciled" (reconciliation_payload c event updated) event.state_version

  -- The rest of `_reconcile`, from the classification on.
  abbrev pub reconcile_from :
      ReconcileEventCommand
      → CanonicalEvent
      → EventClassification
      → Exec EventStore EventWriteResult
  reconcile_from c event k =
      lift (construct check_event (reconciled event c k)) >>= commit_reconciliation c event

  reconcile_passed_lem :
      (c : ReconcileEventCommand) (event : CanonicalEvent) (s s' : EventStore)
      (r : EventWriteResult)
      → reconcile_passed d c event s ≡ (ok r, s')
      → (event.reconciliation_status ⇢ c.target)
        × Changed
            (reclassified c event)
            (reconciliation_log c event (reclassified c event))
            event.state_version
            s
            s'
            r
  unfolding reconcile_passed
  reconcile_passed_lem c event s s' r h =
      let next =
        lift (
          construct check_classification
            (reclassify c.target c.metadata.occurred_at event.classification))
        >>= reconcile_from c event in
      let (x, edge, rest) =
        lift-bind-eq-ok
          (transition_reconciliation event.reconciliation_status c.target c.policy_version)
          (λ _. next) s h in
      let (fine, more) =
        construct-bind-eq-ok check_classification
          (reclassify c.target c.metadata.occurred_at event.classification) (reconcile_from c event)
          s rest in
      let (valid, done) =
        construct-bind-eq-ok check_event (reclassified c event) (commit_reconciliation c event) s
          more in
      (
        transition_reconciliation-eq-ok event.reconciliation_status c.target c.policy_version edge,
        commit_change_lem (reclassified c event) (reconciliation_log c event (reclassified c event))
            c.metadata "canonical_event.reconciled"
            (reconciliation_payload c event (reclassified c event)) event.state_version s s' r done,
      )

  pub reconcile_lem :
      (c : ReconcileEventCommand) (s s' : EventStore) (r : EventWriteResult)
      → reconcile d c s ≡ (ok r, s')
      → Refused c.event_id s s' r ⊎ ((event : CanonicalEvent) × Reconciled c event s s' r)
  unfolding reconcile judge
  reconcile_lem c s s' r h = elim (Option-cases (get String-discrete c.event_id s.events)) [
    | inl absent ↦ ground arith
    | inr (event, present) ↦
        let result : Refused c.event_id s s' r ⊎ Reconciled c event s s' r =
          ground (arith, reconcile_passed_lem c event s s' r) in
        elim result [ inl p ↦ inl p | inr q ↦ inr (event, q) ]
  ]
