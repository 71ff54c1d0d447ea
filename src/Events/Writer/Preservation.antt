-- ===== src/Events/Writer/Preservation.antt =====
-- The commands of packages/events/writer.py and the agreement of the store's Events, index and logs.
use dayjaview.Prelude.{
  ℕ, ◌≡◌, ◌≢◌, refl, sym, subst, ◌∙◌, some, [], ◌∷◌, ◌++◌, String, String-discrete, arith,
}
use dayjaview.Prelude.Dict.{get, get-put_self, get-put_ne}
use dayjaview.Domain.State.{ReconciliationStatus, matched}
use dayjaview.Events.Models.{
  EventClassification, CanonicalEvent, EventStateLog, confirmed, infostock, CreateEventCommand,
  TransitionLifecycleCommand, ReconcileEventCommand, EventWriteResult, Digests,
}
use dayjaview.Events.Store.{EventStore}
use dayjaview.Events.Writer.{
  moved, reclassify, lifecycle_log, reconciliation_log, first_event, first_log,
}
use dayjaview.Events.Writer.Effects.{Changed, Created, Moved, Reconciled, reclassified}
use dayjaview.Events.Writer.History.{History, trail_at, trail_of, on_diagram, on_evidence, began}
use dayjaview.Events.Writer.WellFormed.{
  IsSettled, IsWellFormed, written-keyed, written-recorded, written-indexed,
}

-- The logs of an Event that the store has.
recorded_at :
    (s : EventStore) (id : String) (e : CanonicalEvent)
    → IsWellFormed s
    → get String-discrete id s.events ≡ some e
    → History e.event_id s.state_logs (some (trail_of e))
recorded_at s id e h p =
    let (key, settled) = h.keyed id e p in
    subst (λ k. History k s.state_logs (some (trail_of e))) (sym key)
      (subst (λ o. History id s.state_logs (trail_at o)) p (h.recorded id))

same_identity :
    (s : EventStore) (id : String) (e x : CanonicalEvent)
    → IsWellFormed s
    → get String-discrete id s.events ≡ some e
    → get String-discrete e.event_id s.events ≡ some x
    → e.identity_key ≡ x.identity_key
same_identity s id e x h p q =
    let (key, settled) = h.keyed id e p in
    ground (arith, subst (λ k. get String-discrete k s.events ≡ some x) key q)

reclassify-matched :
    (t : ReconciliationStatus) (at : ℕ) (k : EventClassification)
    → t ≡ matched
    → ((reclassify t at k).certainty ≡ confirmed) × ((reclassify t at k).source ≡ infostock)
unfolding reclassify
reclassify-matched matched at k q = (refl, refl)
reclassify-matched t at k q = ground arith

module _ (d : Digests) where
  -- A change of an Event that the store has, with the log that records it.
  Changed-IsWellFormed :
      (id : String) (event e : CanonicalEvent) (log : EventStateLog) (n : ℕ) (s s' : EventStore)
      (r : EventWriteResult)
      → get String-discrete id s.events ≡ some event
      → Changed d e log n s s' r
      → e.event_id ≡ event.event_id
      → e.identity_key ≡ event.identity_key
      → log.event_id ≡ e.event_id
      → IsSettled e
      → History e.event_id (s.state_logs ++ log ∷ []) (some (trail_of e))
      → IsWellFormed s
      → IsWellFormed s'
  Changed-IsWellFormed id event e log n s s' r p change same_id same_key about still step h =
      record {
        keyed = written-keyed s s' e log change.events change.state_logs about still h;
        indexed = λ key k q.
            written-indexed s s' e log change.events change.state_logs about still h
              (λ x found.
                same_key
                ∙ same_identity s id event x h p
                    (subst (λ j. get String-discrete j s.events ≡ some x) same_id found))
              key k (subst (λ i. get String-discrete key i ≡ some k) change.identities q);
        recorded = written-recorded s s' e log change.events change.state_logs about still h step;
      }

  pub Moved-IsWellFormed :
      (c : TransitionLifecycleCommand) (event : CanonicalEvent) (s s' : EventStore)
      (r : EventWriteResult)
      → Moved d c event s s' r
      → IsWellFormed s
      → IsWellFormed s'
  Moved-IsWellFormed c event s s' r m h =
      let (key, settled) = h.keyed c.event_id event m.before in
      let e = moved event c in
      let log = lifecycle_log c event e in
      let step =
        on_diagram (recorded_at s c.event_id event h m.before) log c.target refl refl refl refl
          m.edge in
      Changed-IsWellFormed c.event_id event e log event.state_version s s' r m.before m.effect refl
        refl refl (record { certainty = settled.certainty; source = settled.source }) step h

  reclassified-IsSettled :
      (c : ReconcileEventCommand) (event : CanonicalEvent) → IsSettled (reclassified d c event)
  reclassified-IsSettled c event =
      let confirms = reclassify-matched c.target c.metadata.occurred_at event.classification in
      record { certainty = λ q. (confirms q).0; source = λ q. (confirms q).1 }

  pub Reconciled-IsWellFormed :
      (c : ReconcileEventCommand) (event : CanonicalEvent) (s s' : EventStore)
      (r : EventWriteResult)
      → Reconciled d c event s s' r
      → IsWellFormed s
      → IsWellFormed s'
  Reconciled-IsWellFormed c event s s' r m h =
      let e = reclassified d c event in
      let log = reconciliation_log c event e in
      let step =
        on_evidence (recorded_at s c.event_id event h m.before) log c.target refl refl refl refl
          m.edge in
      Changed-IsWellFormed c.event_id event e log event.state_version s s' r m.before m.effect refl
        refl refl (reclassified-IsSettled c event) step h

  Created-indexed :
      (c : CreateEventCommand) (s s' : EventStore) (r : EventWriteResult)
      → Created d c s s' r
      → IsWellFormed s
      → (key id : String) → get String-discrete key s'.identities ≡ some id
      → (x : CanonicalEvent) × (get String-discrete id s'.events ≡ some x) × (x.identity_key ≡ key)
  Created-indexed c s s' r m h key id p =
      let e = first_event d c in
      let found : get String-discrete e.event_id s'.events ≡ some e =
        rw (m.events) (get-put_self String-discrete e.event_id e s.events) in
      let index = subst (λ i. get String-discrete key i ≡ some id) m.identities p in
      elim (String-discrete e.identity_key key) [
        | yes same ↦
            let new_id : e.event_id ≡ id =
              ground (
                arith,
                index,
                get-put_self String-discrete e.identity_key e.event_id s.identities,
              ) in
            (e, subst (λ k. get String-discrete k s'.events ≡ some e) new_id found, same)
        | no differs ↦
            let (x, old, belongs) = h.indexed key id (
              sym (get-put_ne String-discrete e.identity_key key e.event_id s.identities differs)
              ∙ index) in
            let apart : e.event_id ≢ id = λ q. ground (arith, m.new_event) in
            (
              x,
              rw (m.events, get-put_ne String-discrete e.event_id id e s.events apart) old,
              belongs,
            )
      ]

  pub Created-IsWellFormed :
      (c : CreateEventCommand) (s s' : EventStore) (r : EventWriteResult)
      → Created d c s s' r
      → IsWellFormed s
      → IsWellFormed s'
  Created-IsWellFormed c s s' r m h =
      let e = first_event d c in
      let log = first_log d c e in
      let still : IsSettled e = record {
        certainty = λ q. ground arith;
        source = λ q. ground arith;
      } in
      let step =
        began
          (subst (λ o. History (d.event_id c.identity) s.state_logs (trail_at o)) m.new_event
            (h.recorded (d.event_id c.identity)))
          log refl refl refl refl in
      record {
        keyed = written-keyed s s' e log m.events m.state_logs refl still h;
        indexed = Created-indexed c s s' r m h;
        recorded = written-recorded s s' e log m.events m.state_logs refl still h step;
      }
