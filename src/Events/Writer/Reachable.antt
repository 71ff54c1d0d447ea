-- ===== src/Events/Writer/Reachable.antt =====
-- The stores that packages/events/writer.py reaches, command by command.
use dayjaview.Prelude.{◌≡◌, ◌≢◌, none, some, ap, inl, inr, refl, List, [], ◌∷◌, arith}
use dayjaview.Prelude.Exec.{Result, ok, raised}
use dayjaview.Prelude.Dict.{get}
use dayjaview.Events.Models.{
  EventCommand, create_event, transition_event, reconcile_event, CommandReceipt, EventWriteResult,
  Digests,
}
use dayjaview.Events.Store.{EventStore, save_receipt, empty_store}
use dayjaview.Events.Writer.{receipt_of, dispatch, write_body, write}
use dayjaview.Events.Writer.Atomic.{write_atomic}
use dayjaview.Events.Writer.Commit.{transaction_ok, write_body_lem}
use dayjaview.Events.Writer.Effects.{create_lem, transition_lem, reconcile_lem}
use dayjaview.Events.Writer.History.{nothing}
use dayjaview.Events.Writer.Preservation.{
  Moved-IsWellFormed, Reconciled-IsWellFormed, Created-IsWellFormed,
}
use dayjaview.Events.Writer.Replay.{write_all}
use dayjaview.Events.Writer.WellFormed.{IsWellFormed, SameRecords, SameRecords-IsWellFormed}

save_receipt-SameRecords :
    (receipt : CommandReceipt) (s s' : EventStore)
    → save_receipt receipt s ≡ (ok tt, s')
    → SameRecords s s'
unfolding save_receipt
save_receipt-SameRecords receipt s s' h = ground arith

none-ne-some : {A : Type 0} {a : A} → none ≢ some a
none-ne-some q = ground arith

empty_store-IsWellFormed : IsWellFormed empty_store
unfolding get
empty_store-IsWellFormed = record {
  keyed = λ id e q. absurd (none-ne-some q);
  indexed = λ key id q. absurd (none-ne-some q);
  recorded = λ id. nothing;
}

module _ (d : Digests) where
  dispatch-IsWellFormed :
      (c : EventCommand) (s s' : EventStore) (r : EventWriteResult)
      → dispatch d c s ≡ (ok r, s')
      → IsWellFormed s
      → IsWellFormed s'
  unfolding dispatch
  dispatch-IsWellFormed (create_event c) s s' r p h = elim (create_lem d c s s' r p) [
    | inl q ↦ rw (q.same) h
    | inr q ↦ Created-IsWellFormed d c s s' r q h
  ]
  dispatch-IsWellFormed (transition_event c) s s' r p h = elim (transition_lem d c s s' r p) [
    | inl q ↦ rw (q.same) h
    | inr (event, q) ↦ Moved-IsWellFormed d c event s s' r q h
  ]
  dispatch-IsWellFormed (reconcile_event c) s s' r p h = elim (reconcile_lem d c s s' r p) [
    | inl q ↦ rw (q.same) h
    | inr (event, q) ↦ Reconciled-IsWellFormed d c event s s' r q h
  ]

  write_ok-IsWellFormed :
      (c : EventCommand) (s s' : EventStore) (r : EventWriteResult)
      → write d c s ≡ (ok r, s')
      → IsWellFormed s
      → IsWellFormed s'
  unfolding write
  write_ok-IsWellFormed c s s' r p h =
      let (done, commits) = transaction_ok (write_body d c) s s' r p in
      elim (write_body_lem d c s s' r done) [
        | inl q ↦ rw (q.same) h
        | inr (between, q) ↦
            SameRecords-IsWellFormed between s'
              (save_receipt-SameRecords (receipt_of d c r) between s' q.saved)
              (dispatch-IsWellFormed c s between r q.effect h)
      ]

  -- A command keeps a well-formed store well formed, whether it returns or raises.
  pub write-IsWellFormed :
      (c : EventCommand) (s : EventStore) (w : Result EventWriteResult × EventStore)
      → write d c s ≡ w
      → IsWellFormed s
      → IsWellFormed w.1
  write-IsWellFormed c s (ok r, s') p h = write_ok-IsWellFormed c s s' r p h
  write-IsWellFormed c s (raised e, s') p h = elim (write_atomic d c s s' e p) [
    | inl same ↦ rw (same) h
    | inr (failure, armed, disarmed) ↦
        SameRecords-IsWellFormed s s'
          (record {
            events = ap (λ t. t.events) disarmed;
            identities = ap (λ t. t.identities) disarmed;
            state_logs = ap (λ t. t.state_logs) disarmed;
          })
          h
  ]

  write_all_from-IsWellFormed :
      (cs : List EventCommand) (s : EventStore) → IsWellFormed s → IsWellFormed (write_all d cs s)
  unfolding write_all
  write_all_from-IsWellFormed [] s h = h
  write_all_from-IsWellFormed (c ∷ cs) s h =
      write_all_from-IsWellFormed cs (write d c s).1 (write-IsWellFormed c s (write d c s) refl h)

  -- After any commands on an empty store, whatever they returned or raised: every Event stands
  -- under its own id, a matched one has Infostock's confirmation, every indexed identity leads to
  -- an Event with that identity, and the state logs of every id replay, version by version along the
  -- edges of the two diagrams, to exactly the statuses and version of the Event stored there.
  pub write_all-IsWellFormed : (cs : List EventCommand) → IsWellFormed (write_all d cs empty_store)
  write_all-IsWellFormed cs = write_all_from-IsWellFormed cs empty_store empty_store-IsWellFormed
