-- ===== src/Operator/Console.antt =====
-- `OperatorConsole` of packages/operator/service.py over the repository.
use dayjaview.Prelude.{
  ℕ, Bool, true, false, not, Option, none, some, String, String-discrete, ite, if◌then◌else◌, ◌==◌,
}
use dayjaview.Prelude.Exec.{
  Result, ok, raised, operator_target_not_found, stale_version, command_not_allowed,
}
use dayjaview.Operator.Models.{
  ReviewStatus, OperatorCommand, OperatorJob, OperatorReview, OperatorCommandReceipt,
  OperatorAuditEntry, OperatorCommandResult, JobStatus, pending, is_retryable, is_resumable,
  resolved,
}
use dayjaview.Operator.Repository.{
  OperatorRepository, start_job_attempt, resolve_review, get_job, get_review, audit_entry,
  find_receipt, store_receipt, append_audit,
}
use dayjaview.Prelude.Json.{JsonObject}

abbrev pub is_pending : ReviewStatus → Bool
is_pending pending = true
is_pending resolved = false

unfoldable pub require_job : String → OperatorRepository → Result OperatorJob
require_job run_id repo = elim (get_job run_id repo) [
  | none ↦ raised operator_target_not_found
  | some job ↦ ok job
]

unfoldable pub require_review : String → OperatorRepository → Result OperatorReview
require_review review_id repo = elim (get_review review_id repo) [
  | none ↦ raised operator_target_not_found
  | some review ↦ ok review
]

-- The fingerprint is the SHA-256 of the command's canonical JSON.
module _ (fingerprint : OperatorCommand → String) where
  -- `_replay`, of a command whose key has a receipt
  unfoldable pub replay : OperatorCommandReceipt → OperatorCommand → Result OperatorCommandResult
  replay receipt command =
      ite (String-discrete receipt.fingerprint (fingerprint command))
        (ok (record { audit = receipt.audit; replayed = true })) (raised command_not_allowed)

  abbrev pub receipt_for : OperatorCommand → OperatorAuditEntry → OperatorCommandReceipt
  receipt_for command audit = record {
    actor_id = command.actor_id;
    idempotency_key = command.idempotency_key;
    fingerprint = fingerprint command;
    audit = audit;
  }

  -- `_record`
  unfoldable pub record_command :
      OperatorCommand
      → ℕ
      → Option ℕ
      → Option ℕ
      → OperatorRepository
      → Result OperatorCommandResult × OperatorRepository
  record_command command now before after repo =
      let audit : OperatorAuditEntry = audit_entry repo command now before after in
      (
        ok (record { audit = audit; replayed = false }),
        store_receipt (receipt_for command audit) (append_audit audit repo),
      )

  -- What follows the call of `start_job_attempt`.
  abbrev pub record_started :
      OperatorCommand
      → ℕ
      → OperatorJob
      → Result OperatorJob × OperatorRepository
      → Result OperatorCommandResult × OperatorRepository
  record_started command now job (raised e, repo) = (raised e, repo)
  record_started command now job (ok after, repo) =
      record_command command now (some job.version) (some after.version) repo

  -- The guards on a job that is there.
  unfoldable pub attempt :
      OperatorCommand
      → ℕ
      → (JobStatus → Bool)
      → OperatorJob
      → OperatorRepository
      → Result OperatorCommandResult × OperatorRepository
  unfolding record_command start_job_attempt
  attempt command now allowed job repo =
      if not (job.version == command.expected_version)
      then (raised stale_version, repo)
      else if not (allowed job.status)
      then (raised command_not_allowed, repo)
      else record_started command now job (start_job_attempt job.run_id now repo)

  unfoldable pub run_job_command :
      OperatorCommand
      → ℕ
      → (JobStatus → Bool)
      → OperatorRepository
      → Result OperatorCommandResult × OperatorRepository
  unfolding attempt replay
  run_job_command command now allowed repo =
      elim (find_receipt command.actor_id command.idempotency_key repo) [
        | some receipt ↦ (replay receipt command, repo)
        | none ↦ elim (get_job command.target_id repo) [
          | none ↦ (raised operator_target_not_found, repo)
          | some job ↦ attempt command now allowed job repo
        ]
      ]

  abbrev pub retry_job :
      OperatorCommand → ℕ → OperatorRepository → Result OperatorCommandResult × OperatorRepository
  retry_job command now = run_job_command command now is_retryable

  abbrev pub resume_job :
      OperatorCommand → ℕ → OperatorRepository → Result OperatorCommandResult × OperatorRepository
  resume_job command now = run_job_command command now is_resumable

  -- What follows the call of the repository's `resolve_review`.
  abbrev pub record_resolved :
      OperatorCommand
      → ℕ
      → OperatorReview
      → Result OperatorReview × OperatorRepository
      → Result OperatorCommandResult × OperatorRepository
  record_resolved command now review (raised e, repo) = (raised e, repo)
  record_resolved command now review (ok after, repo) =
      record_command command now (some review.version) (some after.version) repo

  -- The guards on a review that is there.
  unfoldable pub settle :
      OperatorCommand
      → ℕ
      → JsonObject
      → OperatorReview
      → OperatorRepository
      → Result OperatorCommandResult × OperatorRepository
  unfolding record_command resolve_review
  settle command now resolution review repo =
      if not (review.version == command.expected_version)
      then (raised stale_version, repo)
      else if not (is_pending review.review_status)
      then (raised command_not_allowed, repo)
      else record_resolved command now review (resolve_review review.review_id resolution now repo)

  unfoldable pub resolve :
      OperatorCommand → ℕ → OperatorRepository → Result OperatorCommandResult × OperatorRepository
  unfolding settle replay
  resolve command now repo = elim (find_receipt command.actor_id command.idempotency_key repo) [
    | some receipt ↦ (replay receipt command, repo)
    | none ↦ elim command.resolution [
      | none ↦ (raised command_not_allowed, repo)
      | some resolution ↦ elim (get_review command.target_id repo) [
        | none ↦ (raised operator_target_not_found, repo)
        | some review ↦ settle command now resolution review repo
      ]
    ]
  ]
