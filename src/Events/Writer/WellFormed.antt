-- ===== src/Events/Writer/WellFormed.antt =====
-- When the Events, their index and their logs agree in a store of packages/events/writer.py.
use dayjaview.Prelude.{
  ◌≡◌, ◌≢◌, sym, ap, subst, ◌∙◌, some, [], ◌∷◌, ◌++◌, String, String-discrete, arith,
}
use dayjaview.Prelude.Dict.{get, put, get-put_self, get-put_ne}
use dayjaview.Domain.State.{matched}
use dayjaview.Events.Models.{CanonicalEvent, EventStateLog, confirmed, infostock}
use dayjaview.Events.Store.{EventStore}
use dayjaview.Events.Writer.History.{History, other, trail_at, trail_of}

-- A MATCHED Event carries Infostock's confirmation.
pub record IsSettled (e : CanonicalEvent) : Type 0 where
  pub certainty : e.reconciliation_status ≡ matched → e.classification.certainty ≡ confirmed
  pub source : e.reconciliation_status ≡ matched → e.classification.source ≡ infostock

pub record IsWellFormed (s : EventStore) : Type 0 where
  pub keyed :
      (id : String) (e : CanonicalEvent)
      → get String-discrete id s.events ≡ some e
      → (e.event_id ≡ id) × IsSettled e
  pub indexed :
      (key id : String)
      → get String-discrete key s.identities ≡ some id
      → (e : CanonicalEvent) × (get String-discrete id s.events ≡ some e) × (e.identity_key ≡ key)
  pub recorded :
      (id : String) → History id s.state_logs (trail_at (get String-discrete id s.events))

-- The parts that the well-formedness reads.
pub record SameRecords (s s' : EventStore) : Type 0 where
  pub events : s'.events ≡ s.events
  pub identities : s'.identities ≡ s.identities
  pub state_logs : s'.state_logs ≡ s.state_logs

pub SameRecords-IsWellFormed :
    (s s' : EventStore) → SameRecords s s' → IsWellFormed s → IsWellFormed s'
SameRecords-IsWellFormed s s' same h = record {
  keyed = rw (same.events) h.keyed;
  indexed = rw (same.events, same.identities) h.indexed;
  recorded = rw (same.events, same.state_logs) h.recorded;
}

-- One Event written, with its log.
module _ (s s' : EventStore) (e : CanonicalEvent) (log : EventStateLog)
    (events : s'.events ≡ put String-discrete e.event_id e s.events)
    (state_logs : s'.state_logs ≡ s.state_logs ++ log ∷ []) (about : log.event_id ≡ e.event_id)
    (settled : IsSettled e) (h : IsWellFormed s) where
  pub written_self : get String-discrete e.event_id s'.events ≡ some e
  written_self = rw (events) (get-put_self String-discrete e.event_id e s.events)

  pub written_ne :
      (id : String)
      → e.event_id ≢ id
      → get String-discrete id s'.events ≡ get String-discrete id s.events
  written_ne id differs = rw (events) (get-put_ne String-discrete e.event_id id e s.events differs)

  pub written-keyed :
      (id : String) (x : CanonicalEvent)
      → get String-discrete id s'.events ≡ some x
      → (x.event_id ≡ id) × IsSettled x
  written-keyed id x p = elim (String-discrete e.event_id id) [
    | yes same ↦
        let written : e ≡ x = ground (arith, written_self) in
        (sym (ap (λ y. y.event_id) written) ∙ same, subst IsSettled written settled)
    | no differs ↦ h.keyed id x (sym (written_ne id differs) ∙ p)
  ]

  pub written-recorded :
      History e.event_id (s.state_logs ++ log ∷ []) (some (trail_of e))
      → (id : String) → History id s'.state_logs (trail_at (get String-discrete id s'.events))
  written-recorded step id = elim (String-discrete e.event_id id) [
    | yes same ↦
        subst (λ k. History k s'.state_logs (trail_at (get String-discrete k s'.events))) same
          (rw (written_self, state_logs) step)
    | no differs ↦
        rw (written_ne id differs, state_logs)
          (other (h.recorded id) log (λ q. differs (sym about ∙ q)))
  ]

  -- An Event that keeps its identity key leaves the index right.
  pub written-indexed :
      ((x : CanonicalEvent)
        → get String-discrete e.event_id s.events ≡ some x
        → e.identity_key ≡ x.identity_key)
      → (key id : String) → get String-discrete key s.identities ≡ some id
      → (x : CanonicalEvent) × (get String-discrete id s'.events ≡ some x) × (x.identity_key ≡ key)
  written-indexed same_key key id p =
      let (x, found, belongs) = h.indexed key id p in
      elim (String-discrete e.event_id id) [
        | yes same ↦ (
          e,
          subst (λ k. get String-discrete k s'.events ≡ some e) same written_self,
          same_key x (subst (λ k. get String-discrete k s.events ≡ some x) (sym same) found)
              ∙ belongs,
        )
        | no differs ↦ (x, written_ne id differs ∙ found, belongs)
      ]
