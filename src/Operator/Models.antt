-- ===== src/Operator/Models.antt =====
-- packages/operator/models.py: the jobs, reviews, audit entries and commands of the console.
use dayjaview.Prelude.{ℕ, Bool, true, false, Option, List, String}
use dayjaview.Prelude.Json.{JsonObject}

pub data JobStatus : Type 0 where
  running succeeded partial rate_limited auth_required failed : JobStatus

pub data ReviewStatus : Type 0 where
  pending resolved : ReviewStatus

pub data InfostockAuthState : Type 0 where
  ready requires_auth unknown : InfostockAuthState

-- `RETRYABLE_JOB_STATUSES` and `RESUMABLE_JOB_STATUSES`
abbrev pub is_retryable : JobStatus → Bool
is_retryable failed = true
is_retryable rate_limited = true
is_retryable auth_required = true
is_retryable running = false
is_retryable succeeded = false
is_retryable partial = false

abbrev pub is_resumable : JobStatus → Bool
is_resumable partial = true
is_resumable failed = false
is_resumable rate_limited = false
is_resumable auth_required = false
is_resumable running = false
is_resumable succeeded = false

pub record OperatorJob : Type 0 where
  pub run_id : String
  pub job_type : String
  pub status : JobStatus
  pub version : ℕ
  pub last_changed_at : ℕ
  pub error_code : Option String
  pub internal_context : JsonObject

pub record OperatorReview : Type 0 where
  pub review_id : String
  pub review_type : String
  pub review_status : ReviewStatus
  pub target_id : String
  pub reason_code : String
  pub version : ℕ
  pub created_at : ℕ
  pub resolved_at : Option ℕ
  pub internal_context : JsonObject

pub record OperatorAuditEntry : Type 0 where
  pub audit_id : String
  pub actor_id : String
  pub occurred_at : ℕ
  pub action : String
  pub target_id : String
  pub reason_code : String
  pub reason : String
  pub before_revision : Option ℕ
  pub after_revision : Option ℕ

pub record InfostockAuthStatus : Type 0 where
  pub status : InfostockAuthState
  pub last_authenticated_at : Option ℕ
  pub runbook_key : Option String

pub record OperatorCommand : Type 0 where
  pub actor_id : String
  pub idempotency_key : String
  pub action : String
  pub target_id : String
  pub reason_code : String
  pub reason : String
  pub expected_version : ℕ
  pub resolution : Option JsonObject

pub record OperatorCommandReceipt : Type 0 where
  pub actor_id : String
  pub idempotency_key : String
  pub fingerprint : String
  pub audit : OperatorAuditEntry

pub record OperatorCommandResult : Type 0 where
  pub audit : OperatorAuditEntry
  pub replayed : Bool

pub record OperatorPage (A : Type 0) : Type 0 where
  pub items : List A
  pub next_cursor : Option String
  pub has_more : Bool
  pub limit : ℕ
