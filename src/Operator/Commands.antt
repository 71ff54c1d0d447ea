-- ===== src/Operator/Commands.antt =====
-- The three commands of packages/operator/service.py, and how one of them can end.
use dayjaview.Prelude.{
  ℕ, suc, Bool, true, false, not, Option, none, some, String, String-discrete, ◌≡◌, ◌≢◌, refl,
  is_none,
}
use dayjaview.Prelude.Exec.{
  Result, ok, raised, operator_target_not_found, stale_version, command_not_allowed, Exception,
}
use dayjaview.Operator.Models.{
  OperatorCommand, OperatorCommandReceipt, OperatorJob, OperatorAuditEntry, OperatorCommandResult,
  is_retryable, OperatorReview, is_resumable, JobStatus,
}
use dayjaview.Operator.Repository.{
  OperatorRepository, get_job, get_review, find_receipt, audit_entry, started, store_receipt,
  as_resolved, append_audit,
}
use dayjaview.Operator.Console.{
  run_job_command, resolve, replay, retry_job, resume_job, is_pending, receipt_for,
}
use dayjaview.Prelude.Dict.{put}

pub data JobCommand : Type 0 where
  retry resume : JobCommand

abbrev pub allowed_for : JobCommand → JobStatus → Bool
allowed_for retry = is_retryable
allowed_for resume = is_resumable

pub data Operation : Type 0 where
  job_command : JobCommand → OperatorCommand → ℕ → Operation
  review_command : OperatorCommand → ℕ → Operation

abbrev pub command_of : Operation → OperatorCommand
command_of (job_command k c now) = c
command_of (review_command c now) = c

abbrev pub time_of : Operation → ℕ
time_of (job_command k c now) = now
time_of (review_command c now) = now

module _ (fingerprint : OperatorCommand → String) where
  unfoldable pub perform :
      Operation → OperatorRepository → Result OperatorCommandResult × OperatorRepository
  unfolding run_job_command resolve
  perform (job_command retry c now) repo = retry_job fingerprint c now repo
  perform (job_command resume c now) repo = resume_job fingerprint c now repo
  perform (review_command c now) repo = resolve fingerprint c now repo

-- A job or a review.
pub data Target : Type 0 where
  job_target review_target : String → Target

abbrev pub target_of : Operation → Target
target_of (job_command k c now) = job_target c.target_id
target_of (review_command c now) = review_target c.target_id

abbrev pub version_at : Target → OperatorRepository → Option ℕ
version_at (job_target id) repo = elim (get_job id repo) [
  | none ↦ none
  | some job ↦ some job.version
]
version_at (review_target id) repo = elim (get_review id repo) [
  | none ↦ none
  | some review ↦ some review.version
]

-- The status that the command needs its target to have.
abbrev pub is_allowed : Operation → OperatorRepository → Bool
is_allowed (job_command k c now) repo = elim (get_job c.target_id repo) [
  | none ↦ false
  | some job ↦ allowed_for k job.status
]
is_allowed (review_command c now) repo = elim (get_review c.target_id repo) [
  | none ↦ false
  | some review ↦ is_pending review.review_status
]

-- Only a review is settled with a resolution, and never without one.
abbrev pub is_complete : Operation → Bool
is_complete (job_command k c now) = true
is_complete (review_command c now) = not (is_none c.resolution)

abbrev pub receipt_at : Operation → OperatorRepository → Option OperatorCommandReceipt
receipt_at op repo = find_receipt (command_of op).actor_id (command_of op).idempotency_key repo

-- Jobs and reviews stand under their own identifiers.
pub record IsKeyed (repo : OperatorRepository) : Type 0 where
  pub jobs_keyed : (id : String) (job : OperatorJob) → get_job id repo ≡ some job → job.run_id ≡ id
  pub reviews_keyed :
      (id : String) (review : OperatorReview)
      → get_review id repo ≡ some review
      → review.review_id ≡ id

-- Why a command without a receipt is refused.
pub data Refused (op : Operation) (repo : OperatorRepository) : Exception → Type 0 where
  incomplete : is_complete op ≡ false → Refused op repo command_not_allowed
  missing :
      is_complete op ≡ true
      → version_at (target_of op) repo ≡ none
      → Refused op repo operator_target_not_found
  stale :
      (v : ℕ)
      → is_complete op ≡ true
      → version_at (target_of op) repo ≡ some v
      → v ≢ (command_of op).expected_version
      → Refused op repo stale_version
  disallowed :
      is_complete op ≡ true
      → version_at (target_of op) repo ≡ some (command_of op).expected_version
      → is_allowed op repo ≡ false
      → Refused op repo command_not_allowed

-- The repository in which the target has moved on.
abbrev pub advanced : Operation → OperatorRepository → OperatorRepository
advanced (job_command k c now) repo = elim (get_job c.target_id repo) [
  | none ↦ repo
  | some job ↦ record repo { jobs = put String-discrete c.target_id (started now job) repo.jobs }
]
advanced (review_command c now) repo = elim (get_review c.target_id repo) [
  | none ↦ repo
  | some review ↦ elim c.resolution [
    | none ↦ repo
    | some resolution ↦ record repo {
      reviews = put String-discrete c.target_id (as_resolved resolution now review) repo.reviews;
    }
  ]
]

-- The entry that an executed command leaves.
abbrev pub entry_of : Operation → OperatorRepository → OperatorAuditEntry
entry_of op repo =
    audit_entry repo (command_of op) (time_of op) (some (command_of op).expected_version)
      (some (suc (command_of op).expected_version))

module _ (fingerprint : OperatorCommand → String) (op : Operation) (repo : OperatorRepository) where
  pub data Outcome (r : Result OperatorCommandResult) (after : OperatorRepository) : Type 0 where
    replays :
        (receipt : OperatorCommandReceipt)
        → receipt_at op repo ≡ some receipt
        → r ≡ replay fingerprint receipt (command_of op)
        → after ≡ repo
        → Outcome r after
    refuses :
        (e : Exception)
        → receipt_at op repo ≡ none
        → Refused op repo e
        → r ≡ raised e
        → after ≡ repo
        → Outcome r after
    executes :
        receipt_at op repo ≡ none
        → is_complete op ≡ true
        → version_at (target_of op) repo ≡ some (command_of op).expected_version
        → is_allowed op repo ≡ true
        → r ≡ ok (record { audit = entry_of op repo; replayed = false })
        → after
          ≡ store_receipt
              (receipt_for fingerprint (command_of op) (entry_of op repo))
              (append_audit (entry_of op repo) (advanced op repo))
        → Outcome r after

pub job_command-run :
    (fingerprint : OperatorCommand → String) (k : JobCommand) (c : OperatorCommand) (now : ℕ)
    (repo : OperatorRepository)
    → perform fingerprint (job_command k c now) repo
      ≡ run_job_command fingerprint c now (allowed_for k) repo
unfolding perform
job_command-run fingerprint retry c now repo = refl
job_command-run fingerprint resume c now repo = refl
