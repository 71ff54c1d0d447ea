-- ===== src/Events/Writer/Commit.antt =====
-- The transaction and the receipts of packages/events/writer.py.
use dayjaview.Prelude.{◌≡◌, ◌⊎◌, inl, inr, false, none, some, String-discrete, arith, Option-cases}
use dayjaview.Prelude.Dict.{get}
use dayjaview.Prelude.Exec.{◌>>◌, pure, bind-eq-ok, ok, Exec}
use dayjaview.Events.Models.{EventCommand, metadata_of, EventWriteResult, CommandReceipt, Digests}
use dayjaview.Events.Store.{EventStore, transaction, save_receipt}
use dayjaview.Events.Writer.{receipt_of, carry_out, dispatch, write_body}

-- What a transaction that committed did, it did in its body.
pub transaction_ok :
    {A : Type 0} (body : Exec EventStore A) (s s' : EventStore) (a : A)
    → transaction body s ≡ (ok a, s')
    → (body s ≡ (ok a, s')) × (s'.fail_next_commit ≡ false)
unfolding transaction
transaction_ok body s s' a h = ground arith

module _ (d : Digests) where
  -- A command that a receipt answers.
  pub record Replayed (c : EventCommand) (s s' : EventStore) (r : EventWriteResult) : Type 0 where
    pub receipt : CommandReceipt
    pub present : get String-discrete (metadata_of c).message_id s.receipts ≡ some receipt
    pub fingerprint : receipt.command_fingerprint ≡ d.command_fingerprint c
    pub result : r ≡ receipt.result
    pub same : s' ≡ s

  -- A command that was carried out: `s'` is the store before the receipt was saved.
  pub record Executed (c : EventCommand) (s between s' : EventStore) (r : EventWriteResult)
      : Type 0 where
    pub new : get String-discrete (metadata_of c).message_id s.receipts ≡ none
    pub effect : dispatch d c s ≡ (ok r, between)
    pub saved : save_receipt (receipt_of d c r) between ≡ (ok tt, s')

  carry_out_lem :
      (c : EventCommand) (s s' : EventStore) (r : EventWriteResult)
      → carry_out d c s ≡ (ok r, s')
      → (between : EventStore) × (dispatch d c s ≡ (ok r, between))
        × (save_receipt (receipt_of d c r) between ≡ (ok tt, s'))
  unfolding carry_out
  carry_out_lem c s s' r h =
      let (result, between, effect, rest) =
        bind-eq-ok (dispatch d c) (λ x. save_receipt (receipt_of d c x) >> pure x) s h in
      let (_, after, saved, done) =
        bind-eq-ok (save_receipt (receipt_of d c result)) (λ _. pure result) between rest in
      (between, ground arith, ground arith)

  pub write_body_lem :
      (c : EventCommand) (s s' : EventStore) (r : EventWriteResult)
      → write_body d c s ≡ (ok r, s')
      → Replayed c s s' r ⊎ ((between : EventStore) × Executed c s between s' r)
  unfolding write_body
  write_body_lem c s s' r h =
      elim (Option-cases (get String-discrete (metadata_of c).message_id s.receipts)) [
        | inl new ↦
            let executed : carry_out d c s ≡ (ok r, s') = ground arith in
            let (between, effect, saved) = carry_out_lem c s s' r executed in
            inr (between, record { new = new; effect = effect; saved = saved })
        | inr (old, present) ↦ inl (record {
          receipt = old;
          present = present;
          fingerprint = ground arith;
          result = ground arith;
          same = ground arith;
        })
      ]
