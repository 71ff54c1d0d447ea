-- ===== src/Events/Writer/History.antt =====
-- What the state logs of packages/events/models.py say of one Event, read in the order written.
use dayjaview.Prelude.{ℕ, ◌+◌, ◌≡◌, ◌≢◌, Option, none, some, List, [], ◌∷◌, ◌++◌, String}
use dayjaview.Domain.State.{LifecycleStatus, candidate, ReconciliationStatus}
use dayjaview.Domain.State.Graph.{◌⟶◌, ◌⇢◌}
use dayjaview.Events.Models.{CanonicalEvent, EventStateLog, on_lifecycle, on_reconciliation}

-- What the logs of an Event determine.
pub record Trail : Type 0 where
  pub lifecycle_status : LifecycleStatus
  pub reconciliation_status : ReconciliationStatus
  pub state_version : ℕ

abbrev pub trail_of : CanonicalEvent → Trail
trail_of e = record {
  lifecycle_status = e.lifecycle_status;
  reconciliation_status = e.reconciliation_status;
  state_version = e.state_version;
}

abbrev pub trail_at : Option CanonicalEvent → Option Trail
trail_at none = none
trail_at (some e) = some (trail_of e)

abbrev pub first_trail : Trail
first_trail = record {
  lifecycle_status = candidate;
  reconciliation_status = ReconciliationStatus.pending;
  state_version = 1;
}

-- The logs, oldest first, take the Event from nothing to the trail: its first log is version 1 as a
-- candidate, and each one after it starts where the one before ended, follows an edge of its axis,
-- and counts the version up by one.
pub data History (id : String) : List EventStateLog → Option Trail → Type 0 where
  nothing : History id [] none
  other :
      {logs : List EventStateLog} {t : Option Trail}
      → History id logs t
      → (log : EventStateLog) → log.event_id ≢ id
      → History id (logs ++ log ∷ []) t
  began :
      {logs : List EventStateLog}
      → History id logs none
      → (log : EventStateLog) → log.event_id ≡ id
      → log.state_version ≡ 1
      → log.from_status ≡ none
      → log.to_status ≡ on_lifecycle candidate
      → History id (logs ++ log ∷ []) (some first_trail)
  on_diagram :
      {logs : List EventStateLog} {t : Trail}
      → History id logs (some t)
      → (log : EventStateLog) (target : LifecycleStatus) → log.event_id ≡ id
      → log.state_version ≡ t.state_version + 1
      → log.from_status ≡ some (on_lifecycle t.lifecycle_status)
      → log.to_status ≡ on_lifecycle target
      → t.lifecycle_status ⟶ target
      → History id
          (logs ++ log ∷ [])
          (some (record t { lifecycle_status = target; state_version = t.state_version + 1 }))
  on_evidence :
      {logs : List EventStateLog} {t : Trail}
      → History id logs (some t)
      → (log : EventStateLog) (target : ReconciliationStatus) → log.event_id ≡ id
      → log.state_version ≡ t.state_version + 1
      → log.from_status ≡ some (on_reconciliation t.reconciliation_status)
      → log.to_status ≡ on_reconciliation target
      → t.reconciliation_status ⇢ target
      → History id
          (logs ++ log ∷ [])
          (some (record t { reconciliation_status = target; state_version = t.state_version + 1 }))
