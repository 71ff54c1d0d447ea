-- ===== src/Operator/Receipts.antt =====
-- What the commands of packages/operator/service.py leave in the receipts and in the audit log.
use dayjaview.Prelude.{
  true, some, String, String-discrete, ite, ◌≡◌, refl, Option-cases, inl, inr, List, ◌++◌,
  if◌then◌else◌, [], ◌∷◌, ap, arith, ◌∙◌, sym,
}
use dayjaview.Prelude.Dict.{get, get-put}
use dayjaview.Operator.Models.{
  OperatorCommand, OperatorCommandResult, OperatorAuditEntry, OperatorCommandReceipt,
}
use dayjaview.Prelude.Exec.{Result, ok, raised, command_not_allowed}
use dayjaview.Operator.Repository.{
  OperatorRepository, get_job, find_receipt, get_review, ReceiptKey-discrete,
}
use dayjaview.Operator.Commands.{
  Operation, advanced, job_command, Outcome, replays, review_command, refuses, executes, entry_of,
  command_of, receipt_at, perform, IsKeyed, retry, resume,
}
use dayjaview.Operator.Console.{replay, receipt_for, run_job_command, resolve}
use dayjaview.Operator.Runs.{run, perform-IsKeyed}
use dayjaview.Operator.Outcomes.{perform-Outcome}

-- The entry of a command that was carried out.
abbrev pub audit_of : Result OperatorCommandResult → List OperatorAuditEntry
audit_of (ok result) = if result.replayed then [] else result.audit ∷ []
audit_of (raised e) = []

module _ (repo : OperatorRepository) where
  -- Moving a target on touches neither the log nor the receipts.
  advanced-rest :
      (op : Operation)
      → ((advanced op repo).audit ≡ repo.audit) × ((advanced op repo).receipts ≡ repo.receipts)
  advanced-rest (job_command k c now) = elim (Option-cases (get_job c.target_id repo)) [
    | inl absent ↦ ground arith
    | inr (job, found) ↦ ground arith
  ]
  advanced-rest (review_command c now) = elim (Option-cases (get_review c.target_id repo)) [
    | inl absent ↦ ground arith
    | inr (review, found) ↦ elim (Option-cases c.resolution) [
      | inl no_resolution ↦ ground arith
      | inr (resolution, given) ↦ ground arith
    ]
  ]

append-nil : (xs : List OperatorAuditEntry) → xs ++ [] ≡ xs
append-nil [] = refl
append-nil (x ∷ xs) = ap (λ l. x ∷ l) (append-nil xs)

append_assoc : (xs ys zs : List OperatorAuditEntry) → (xs ++ ys) ++ zs ≡ xs ++ (ys ++ zs)
append_assoc [] ys zs = refl
append_assoc (x ∷ xs) ys zs = ap (λ l. x ∷ l) (append_assoc xs ys zs)

module _ (fingerprint : OperatorCommand → String) (op : Operation) (repo : OperatorRepository) where
  Outcome-audit :
      (r : Result OperatorCommandResult) (after : OperatorRepository)
      → Outcome fingerprint op repo r after
      → after.audit ≡ repo.audit ++ audit_of r
  unfolding replay
  Outcome-audit r after (replays receipt _ answer e) =
      let nothing : audit_of r ≡ [] = ground arith in rw (e, nothing) (sym (append-nil repo.audit))
  Outcome-audit r after (refuses x _ _ answer e) =
      let nothing : audit_of r ≡ [] = ground arith in rw (e, nothing) (sym (append-nil repo.audit))
  Outcome-audit r after (executes _ complete current _ answer e) =
      let entry : audit_of r ≡ entry_of op repo ∷ [] = ground arith in
      rw (e, entry) (ap (λ l. l ++ (entry_of op repo ∷ [])) (advanced-rest repo op).0)

  -- A receipt that is there stays as it is.
  Outcome-receipt :
      (r : Result OperatorCommandResult) (after : OperatorRepository) (actor key : String)
      (receipt : OperatorCommandReceipt)
      → Outcome fingerprint op repo r after
      → find_receipt actor key repo ≡ some receipt
      → find_receipt actor key after ≡ some receipt
  Outcome-receipt r after actor key receipt (replays _ _ _ e) found =
      ap (find_receipt actor key) e ∙ found
  Outcome-receipt r after actor key receipt (refuses _ _ _ _ e) found =
      ap (find_receipt actor key) e ∙ found
  Outcome-receipt r after actor key receipt (executes new _ _ _ _ e) found =
      let c : OperatorCommand = command_of op in
      let kept = (advanced-rest repo op).1 in
      ground (
        arith,
        get-put ReceiptKey-discrete (c.actor_id, c.idempotency_key) (actor, key)
            (receipt_for fingerprint c (entry_of op repo)) (advanced op repo).receipts,
      )

  -- A command that came to a result has a receipt with its fingerprint and the entry of the result.
  Outcome-own_receipt :
      (r : Result OperatorCommandResult) (after : OperatorRepository)
      (result : OperatorCommandResult)
      → Outcome fingerprint op repo r after
      → r ≡ ok result
      → (receipt : OperatorCommandReceipt) × (receipt_at op after ≡ some receipt)
        × (receipt.fingerprint ≡ fingerprint (command_of op))
        × (receipt.audit ≡ result.audit)
  unfolding replay
  Outcome-own_receipt r after result (replays receipt found answer e) returned =
      elim (String-discrete receipt.fingerprint (fingerprint (command_of op))) [
        | yes same ↦ (receipt, ap (receipt_at op) e ∙ found, same, ground arith)
        | no other ↦ absurd (ground arith)
      ]
  Outcome-own_receipt r after result (refuses x _ _ answer e) returned =
      absurd (cc (answer, returned))
  Outcome-own_receipt r after result (executes new _ _ _ answer e) returned =
      let c : OperatorCommand = command_of op in
      (
        receipt_for fingerprint c (entry_of op repo),
        ap (receipt_at op) e
            ∙ get-put ReceiptKey-discrete (c.actor_id, c.idempotency_key)
                (c.actor_id, c.idempotency_key) (receipt_for fingerprint c (entry_of op repo))
                (advanced op repo).receipts
            ∙ found_self c,
        refl,
        ground arith,
      )
    where
      found_self :
          (c : OperatorCommand)
          → ite
              (ReceiptKey-discrete (c.actor_id, c.idempotency_key) (c.actor_id, c.idempotency_key))
              (some (receipt_for fingerprint c (entry_of op repo)))
              (get ReceiptKey-discrete (c.actor_id, c.idempotency_key) (advanced op repo).receipts)
            ≡ some (receipt_for fingerprint c (entry_of op repo))
      found_self c = ground arith

-- A command whose key has a receipt is answered from it.
perform-replay :
    (fingerprint : OperatorCommand → String) (op : Operation) (repo : OperatorRepository)
    (receipt : OperatorCommandReceipt)
    → receipt_at op repo ≡ some receipt
    → perform fingerprint op repo ≡ (replay fingerprint receipt (command_of op), repo)
unfolding perform run_job_command resolve
perform-replay fingerprint (job_command retry c now) repo receipt found = ground arith
perform-replay fingerprint (job_command resume c now) repo receipt found = ground arith
perform-replay fingerprint (review_command c now) repo receipt found = ground arith

module _ (fingerprint : OperatorCommand → String) where
  run-receipt :
      (ops : List Operation) (repo : OperatorRepository) (actor key : String)
      (receipt : OperatorCommandReceipt)
      → IsKeyed repo
      → find_receipt actor key repo ≡ some receipt
      → find_receipt actor key (run fingerprint ops repo) ≡ some receipt
  unfolding run
  run-receipt [] repo actor key receipt keyed found = found
  run-receipt (op ∷ ops) repo actor key receipt keyed found =
      run-receipt ops _ actor key receipt (perform-IsKeyed fingerprint op repo keyed) (
        Outcome-receipt fingerprint op repo _ _ actor key receipt
          (perform-Outcome fingerprint repo keyed op) found)

  -- On jobs and reviews that stand under their own identifiers, once a command came to a result, then after any
  -- further commands every command of the same operator with the same key changes nothing. It is given that result's entry, marked as
  -- replayed, where its fingerprint is that of the first command, and is rejected otherwise.
  pub perform_once :
      (op again : Operation) (ops : List Operation) (repo : OperatorRepository)
      (result : OperatorCommandResult)
      → IsKeyed repo
      → (perform fingerprint op repo).0 ≡ ok result
      → (command_of again).actor_id ≡ (command_of op).actor_id
      → (command_of again).idempotency_key ≡ (command_of op).idempotency_key
      → perform fingerprint again (run fingerprint (op ∷ ops) repo) ≡ (
        ite
            (String-discrete (fingerprint (command_of op)) (fingerprint (command_of again)))
            (ok (record { audit = result.audit; replayed = true }))
            (raised command_not_allowed),
        run fingerprint (op ∷ ops) repo,
      )
  unfolding replay run
  perform_once op again ops repo result keyed returned same_actor same_key =
      let (receipt, found, prints, audit) =
        Outcome-own_receipt fingerprint op repo _ _ result
          (perform-Outcome fingerprint repo keyed op) returned in
      let kept =
        run-receipt ops (perform fingerprint op repo).1 _ _ receipt
          (perform-IsKeyed fingerprint op repo keyed) found in
      let now_found : receipt_at again (run fingerprint (op ∷ ops) repo) ≡ some receipt =
        rw (same_actor, same_key) kept in
      perform-replay fingerprint again (run fingerprint (op ∷ ops) repo) receipt now_found
      ∙ rw (prints, audit, replay) refl

  -- What a sequence of commands carried out, in order.
  unfoldable pub carried_out : List Operation → OperatorRepository → List OperatorAuditEntry
  carried_out [] repo = []
  carried_out (op ∷ ops) repo =
      audit_of (perform fingerprint op repo).0 ++ carried_out ops (perform fingerprint op repo).1

  -- On jobs and reviews that stand under their own identifiers, any commands leave the audit log as it was with the
  -- entries of those that were carried out added at its end, in order, and no other.
  pub run-audit :
      (ops : List Operation) (repo : OperatorRepository)
      → IsKeyed repo
      → (run fingerprint ops repo).audit ≡ repo.audit ++ carried_out ops repo
  unfolding run carried_out
  run-audit [] repo keyed = sym (append-nil repo.audit)
  run-audit (op ∷ ops) repo keyed =
      run-audit ops _ (perform-IsKeyed fingerprint op repo keyed)
      ∙ ap (λ l. l ++ carried_out ops (perform fingerprint op repo).1)
          (Outcome-audit fingerprint op repo _ _ (perform-Outcome fingerprint repo keyed op))
      ∙ append_assoc repo.audit (audit_of (perform fingerprint op repo).0)
          (carried_out ops (perform fingerprint op repo).1)
