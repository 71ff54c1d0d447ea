-- ===== src/Operator/Repository.antt =====
-- `InMemoryOperatorRepository` of packages/operator/repository.py. Each method is one step.
use Prim.Native.Nat.{compare}
use Prim.Native.String.{compare as compare_text, then as thenby}
use text.Mathlib.Text.{is_le}
use dayjaview.Prelude.{
  ℕ, suc, Bool, true, false, ◌&&◌, Option, none, some, List, [], ◌∷◌, ◌++◌, String, append,
  String-discrete, ite, length, sort_by, if◌then◌else◌, ◌+◌,
}
use dayjaview.Prelude.Dict.{Dict, get, put}
use dayjaview.Prelude.Json.{object, with_field, padded, digits, JsonObject}
use dayjaview.Prelude.Exec.{Result, ok, raised, key_error}
use dayjaview.Operator.Models.{
  unknown, InfostockAuthStatus, JobStatus, ReviewStatus, OperatorAuditEntry, OperatorCommandReceipt,
  OperatorJob, OperatorCommand, OperatorReview, running, resolved, OperatorPage, succeeded, pending,
  partial, rate_limited, auth_required, failed,
}
use dayjaview.Operator.Pages.{paginate}

abbrev pub ReceiptKey : Type 0
ReceiptKey = String × String

unfoldable pub ReceiptKey-discrete : Discrete ReceiptKey
unfolding String-discrete
ReceiptKey-discrete = hlevel String-discrete

pub record OperatorRepository : Type 0 where
  pub jobs : Dict String OperatorJob
  pub reviews : Dict String OperatorReview
  pub audit : List OperatorAuditEntry
  pub receipts : Dict ReceiptKey OperatorCommandReceipt
  pub infostock_auth : InfostockAuthStatus

-- A repository that was given no job, no review and no status.
abbrev pub empty_repository : OperatorRepository
empty_repository = record {
  jobs = [];
  reviews = [];
  audit = [];
  receipts = [];
  infostock_auth = record { status = unknown; last_authenticated_at = none; runbook_key = none };
}

abbrev pub record_job : OperatorJob → OperatorRepository → OperatorRepository
record_job job repo = record repo { jobs = put String-discrete job.run_id job repo.jobs }

abbrev pub open_review : OperatorReview → OperatorRepository → OperatorRepository
open_review review repo = record repo {
  reviews = put String-discrete review.review_id review repo.reviews;
}

abbrev pub set_infostock_auth_status : InfostockAuthStatus → OperatorRepository → OperatorRepository
set_infostock_auth_status status repo = record repo { infostock_auth = status }

abbrev pub get_job : String → OperatorRepository → Option OperatorJob
get_job run_id repo = get String-discrete run_id repo.jobs

abbrev pub get_review : String → OperatorRepository → Option OperatorReview
get_review review_id repo = get String-discrete review_id repo.reviews

-- The job that runs again.
abbrev pub started : ℕ → OperatorJob → OperatorJob
started now job = record {
  run_id = job.run_id;
  job_type = job.job_type;
  status = running;
  version = job.version + 1;
  last_changed_at = now;
  error_code = none;
  internal_context = job.internal_context;
}

unfoldable pub start_job_attempt :
    String → ℕ → OperatorRepository → Result OperatorJob × OperatorRepository
start_job_attempt run_id now repo = elim (get_job run_id repo) [
  | none ↦ (raised key_error, repo)
  | some job ↦ (
    ok (started now job),
    record repo { jobs = put String-discrete run_id (started now job) repo.jobs },
  )
]

abbrev pub as_resolved : JsonObject → ℕ → OperatorReview → OperatorReview
as_resolved resolution now review = record {
  review_id = review.review_id;
  review_type = review.review_type;
  review_status = resolved;
  target_id = review.target_id;
  reason_code = review.reason_code;
  version = review.version + 1;
  created_at = review.created_at;
  resolved_at = some now;
  internal_context = with_field "resolution" (object resolution) review.internal_context;
}

unfoldable pub resolve_review :
    String → JsonObject → ℕ → OperatorRepository → Result OperatorReview × OperatorRepository
resolve_review review_id resolution now repo = elim (get_review review_id repo) [
  | none ↦ (raised key_error, repo)
  | some review ↦ (
    ok (as_resolved resolution now review),
    record repo {
      reviews = put String-discrete review_id (as_resolved resolution now review) repo.reviews;
    },
  )
]

-- The identifier of an entry, from the number of entries before it.
unfoldable pub audit_id_at : ℕ → String
unfolding padded digits
audit_id_at n = append "aud_" (padded 8 (digits (suc n)))

abbrev pub audit_entry :
    OperatorRepository → OperatorCommand → ℕ → Option ℕ → Option ℕ → OperatorAuditEntry
audit_entry repo command now before after = record {
  audit_id = audit_id_at (length repo.audit);
  actor_id = command.actor_id;
  occurred_at = now;
  action = command.action;
  target_id = command.target_id;
  reason_code = command.reason_code;
  reason = command.reason;
  before_revision = before;
  after_revision = after;
}

abbrev pub append_audit : OperatorAuditEntry → OperatorRepository → OperatorRepository
append_audit entry repo = record repo { audit = repo.audit ++ (entry ∷ []) }

abbrev pub find_receipt : String → String → OperatorRepository → Option OperatorCommandReceipt
find_receipt actor_id idempotency_key repo =
    get ReceiptKey-discrete (actor_id, idempotency_key) repo.receipts

abbrev pub store_receipt : OperatorCommandReceipt → OperatorRepository → OperatorRepository
store_receipt receipt repo = record repo {
  receipts =
      put ReceiptKey-discrete (receipt.actor_id, receipt.idempotency_key) receipt repo.receipts;
}

-- Newest first, then by identifier.
unfoldable pub job_first : OperatorJob → OperatorJob → Bool
job_first a b =
    is_le (thenby (compare b.last_changed_at a.last_changed_at) (compare_text a.run_id b.run_id))

unfoldable pub review_first : OperatorReview → OperatorReview → Bool
review_first a b =
    is_le (thenby (compare a.created_at b.created_at) (compare_text a.review_id b.review_id))

unfoldable pub entry_first : OperatorAuditEntry → OperatorAuditEntry → Bool
entry_first a b =
    is_le (thenby (compare b.occurred_at a.occurred_at) (compare_text a.audit_id b.audit_id))

abbrev is_status : JobStatus → JobStatus → Bool
is_status running running = true
is_status succeeded succeeded = true
is_status partial partial = true
is_status rate_limited rate_limited = true
is_status auth_required auth_required = true
is_status failed failed = true
is_status _ _ = false

abbrev is_review_status : ReviewStatus → ReviewStatus → Bool
is_review_status pending pending = true
is_review_status resolved resolved = true
is_review_status _ _ = false

abbrev is_text : String → String → Bool
is_text a b = ite (String-discrete a b) true false

-- No filter, or a filter that the value passes.
abbrev passes : {B C : Type 0} → (B → C → Bool) → Option B → C → Bool
passes test none value = true
passes test (some wanted) value = test wanted value

unfoldable pub jobs_with : Option JobStatus → Dict String OperatorJob → List OperatorJob
jobs_with wanted [] = []
jobs_with wanted ((id, job) ∷ jobs) =
    let rest = jobs_with wanted jobs in
    if passes is_status wanted job.status then job ∷ rest else rest

unfoldable pub reviews_with :
    Option String → Option ReviewStatus → Dict String OperatorReview → List OperatorReview
unfolding String-discrete
reviews_with wanted_type wanted [] = []
reviews_with wanted_type wanted ((id, review) ∷ reviews) =
    let rest = reviews_with wanted_type wanted reviews in
    if passes is_text wanted_type review.review_type
      && passes is_review_status wanted review.review_status
    then review ∷ rest
    else rest

unfoldable pub list_jobs :
    Option JobStatus → Option String → ℕ → OperatorRepository → Result (OperatorPage OperatorJob)
unfolding paginate jobs_with sort_by job_first
list_jobs wanted cursor limit repo =
    paginate (λ job. OperatorJob.run_id job) (sort_by job_first (jobs_with wanted repo.jobs)) cursor
      limit

unfoldable pub list_reviews :
    Option String
    → Option ReviewStatus
    → Option String
    → ℕ
    → OperatorRepository
    → Result (OperatorPage OperatorReview)
unfolding paginate reviews_with sort_by review_first
list_reviews wanted_type wanted cursor limit repo =
    paginate (λ review. OperatorReview.review_id review)
      (sort_by review_first (reviews_with wanted_type wanted repo.reviews)) cursor limit

unfoldable pub list_audit :
    Option String → ℕ → OperatorRepository → Result (OperatorPage OperatorAuditEntry)
unfolding paginate sort_by entry_first
list_audit cursor limit repo =
    paginate (λ entry. OperatorAuditEntry.audit_id entry) (sort_by entry_first repo.audit) cursor
      limit
