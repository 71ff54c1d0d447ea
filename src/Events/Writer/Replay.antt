-- ===== src/Events/Writer/Replay.antt =====
-- The idempotency of packages/events/writer.py: a command that comes again.
use dayjaview.Prelude.{
  ◌≡◌, inl, inr, refl, false, none, some, List, [], ◌∷◌, String-discrete, arith, ite,
}
use dayjaview.Prelude.Dict.{get, get-put_self, get-put_ne}
use dayjaview.Prelude.Exec.{Result, ok, raised, idempotency_conflict}
use dayjaview.Events.Models.{
  EventCommand, create_event, transition_event, reconcile_event, metadata_of, EventWriteResult,
  CommandReceipt, Digests,
}
use dayjaview.Events.Store.{EventStore, save_receipt}
use dayjaview.Events.Writer.{receipt_of, dispatch, write_body, write, true}
use dayjaview.Events.Writer.Atomic.{write_atomic}
use dayjaview.Events.Writer.Commit.{transaction_ok, write_body_lem}
use dayjaview.Events.Writer.Effects.{create_lem, transition_lem, reconcile_lem}

module _ (d : Digests) where
  -- A command itself saves no receipt, and arms no failure.
  pub dispatch_keeps :
      (c : EventCommand) (s s' : EventStore) (r : EventWriteResult)
      → dispatch d c s ≡ (ok r, s')
      → (s'.receipts ≡ s.receipts) × (s'.fail_next_commit ≡ s.fail_next_commit)
  unfolding dispatch
  dispatch_keeps (create_event c) s s' r h = ground (arith, create_lem d c s s' r)
  dispatch_keeps (transition_event c) s s' r h = ground (arith, transition_lem d c s s' r)
  dispatch_keeps (reconcile_event c) s s' r h = ground (arith, reconcile_lem d c s s' r)

  -- The store answers the command with `r`.
  pub record Answers (c : EventCommand) (r : EventWriteResult) (s : EventStore) : Type 0 where
    pub receipt : CommandReceipt
    pub present : get String-discrete (metadata_of c).message_id s.receipts ≡ some receipt
    pub fingerprint : receipt.command_fingerprint ≡ d.command_fingerprint c
    pub result : receipt.result ≡ r
    pub commits : s.fail_next_commit ≡ false

  -- Saving the receipt of a command that no receipt answered.
  saved-Answers :
      (c : EventCommand) (r : EventWriteResult) (between s' : EventStore)
      → get String-discrete (metadata_of c).message_id between.receipts ≡ none
      → save_receipt (receipt_of d c r) between ≡ (ok tt, s')
      → s'.fail_next_commit ≡ false
      → Answers c r s'
  unfolding save_receipt
  saved-Answers c r between s' new saved commits = record {
    receipt = receipt_of d c r;
    present = ground (
      arith,
      get-put_self String-discrete (metadata_of c).message_id (receipt_of d c r) between.receipts,
    );
    fingerprint = refl;
    result = refl;
    commits = commits;
  }

  pub write-Answers :
      (c : EventCommand) (s s' : EventStore) (r : EventWriteResult)
      → write d c s ≡ (ok r, s')
      → Answers c r s'
  unfolding write
  write-Answers c s s' r h =
      let (done, commits) = transaction_ok (write_body d c) s s' r h in
      elim (write_body_lem d c s s' r done) [
        | inl p ↦ ground arith
        | inr (between, p) ↦
            let (receipts, flag) = dispatch_keeps c s between r p.effect in
            saved-Answers c r between s' (ground arith) p.saved commits
      ]

  -- What a store that answers a command makes of a command with the same message id.
  pub Answers-write :
      (c again : EventCommand) (s : EventStore) (r : EventWriteResult)
      → Answers c r s
      → (metadata_of again).message_id ≡ (metadata_of c).message_id
      → write d again s
        ≡ ite
            (String-discrete (d.command_fingerprint c) (d.command_fingerprint again))
            (ok r, s)
            (raised idempotency_conflict, s)
  unfolding write
  Answers-write c again s r h same = ground arith

  -- Every other command leaves the answer in the store.
  saved-keeps :
      (c other : EventCommand) (r r' : EventWriteResult) (between s' : EventStore)
      → Answers c r between
      → get String-discrete (metadata_of other).message_id between.receipts ≡ none
      → save_receipt (receipt_of d other r') between ≡ (ok tt, s')
      → s'.fail_next_commit ≡ false
      → Answers c r s'
  unfolding save_receipt
  saved-keeps c other r r' between s' h new saved commits = record {
    receipt = h.receipt;
    present = ground (
      arith,
      h.present,
      get-put_ne String-discrete (metadata_of other).message_id (metadata_of c).message_id
          (receipt_of d other r') between.receipts,
    );
    fingerprint = h.fingerprint;
    result = h.result;
    commits = commits;
  }

  write_ok-keeps :
      (c other : EventCommand) (r r' : EventWriteResult) (s s' : EventStore)
      → Answers c r s
      → write d other s ≡ (ok r', s')
      → Answers c r s'
  unfolding write
  write_ok-keeps c other r r' s s' h w =
      let (done, commits) = transaction_ok (write_body d other) s s' r' w in
      elim (write_body_lem d other s s' r' done) [
        | inl p ↦ rw (p.same) h
        | inr (between, p) ↦
            let (receipts, flag) = dispatch_keeps other s between r' p.effect in
            let kept : Answers c r between = record {
              receipt = h.receipt;
              present = rw (receipts) h.present;
              fingerprint = h.fingerprint;
              result = h.result;
              commits = rw (flag) h.commits;
            } in
            saved-keeps c other r r' between s' kept (rw (receipts) p.new) p.saved commits
      ]

  armed_and_not : (s : EventStore) → s.fail_next_commit ≡ true → ¬ (s.fail_next_commit ≡ false)
  armed_and_not s p q = ground arith

  write-keeps :
      (c other : EventCommand) (r : EventWriteResult) (s : EventStore)
      (w : Result EventWriteResult × EventStore)
      → Answers c r s
      → write d other s ≡ w
      → Answers c r w.1
  write-keeps c other r s (ok r', s') h w = write_ok-keeps c other r r' s s' h w
  write-keeps c other r s (raised e, s') h w = elim (write_atomic d other s s' e w) [
    | inl same ↦ rw (same) h
    | inr (failure, armed, disarmed) ↦ absurd (armed_and_not s armed h.commits)
  ]

  -- The store after a list of commands, whether they return or raise.
  unfoldable pub write_all : List EventCommand → EventStore → EventStore
  write_all [] s = s
  write_all (c ∷ cs) s = write_all cs (write d c s).1

  write_all-keeps :
      (c : EventCommand) (r : EventWriteResult) (cs : List EventCommand) (s : EventStore)
      → Answers c r s
      → Answers c r (write_all cs s)
  unfolding write_all
  write_all-keeps c r [] s h = h
  write_all-keeps c r (other ∷ cs) s h =
      write_all-keeps c r cs (write d other s).1 (write-keeps c other r s (write d other s) h refl)

  -- Once `write` has returned `r` for a command, then whatever commands come next, a command with
  -- the same message id leaves the store as it finds it: it returns `r` again if its fingerprint is
  -- the same, and raises an idempotency conflict if not.
  pub write_once :
      (c again : EventCommand) (s s' : EventStore) (r : EventWriteResult)
      (later : List EventCommand)
      → write d c s ≡ (ok r, s')
      → (metadata_of again).message_id ≡ (metadata_of c).message_id
      → write d again (write_all later s')
        ≡ ite
            (String-discrete (d.command_fingerprint c) (d.command_fingerprint again))
            (ok r, write_all later s')
            (raised idempotency_conflict, write_all later s')
  write_once c again s s' r later h same =
      Answers-write c again (write_all later s') r
        (write_all-keeps c r later s' (write-Answers c s s' r h)) same
