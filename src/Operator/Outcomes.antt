-- ===== src/Operator/Outcomes.antt =====
-- The outcomes of a command of packages/operator/service.py.
use dayjaview.Prelude.{
  ℕ, none, some, String, ◌≡◌, refl, Option-cases, Bool-cases, inl, inr, ℕ_discrete, arith, subst,
  sym,
}
use dayjaview.Operator.Models.{OperatorCommand, OperatorJob, OperatorReview}
use dayjaview.Operator.Repository.{
  OperatorRepository, start_job_attempt, get_job, resolve_review, get_review,
}
use dayjaview.Operator.Commands.{
  IsKeyed, JobCommand, receipt_at, job_command, Outcome, allowed_for, refuses, stale, disallowed,
  executes, perform, replays, review_command, Operation, incomplete, missing, job_command-run,
}
use dayjaview.Operator.Console.{
  attempt, record_command, settle, run_job_command, resolve, is_pending,
}
use dayjaview.Prelude.Exec.{stale_version, command_not_allowed, operator_target_not_found}
use dayjaview.Prelude.Json.{JsonObject}

module _ (fingerprint : OperatorCommand → String) (repo : OperatorRepository)
    (keyed : IsKeyed repo) where
  attempt-Outcome :
      (k : JobCommand) (c : OperatorCommand) (now : ℕ) (job : OperatorJob)
      → receipt_at (job_command k c now) repo ≡ none
      → get_job c.target_id repo ≡ some job
      → Outcome fingerprint
          (job_command k c now)
          repo
          (attempt fingerprint c now (allowed_for k) job repo).0
          (attempt fingerprint c now (allowed_for k) job repo).1
  unfolding attempt start_job_attempt record_command
  attempt-Outcome k c now job new found = elim (ℕ_discrete job.version c.expected_version) [
    | no differs ↦
        refuses stale_version new (stale job.version refl (ground arith) differs) (ground arith)
          (ground arith)
    | yes same ↦ elim (Bool-cases (allowed_for k job.status)) [
      | inr denied ↦
          refuses command_not_allowed new (disallowed refl (ground arith) (ground arith))
            (ground arith) (ground arith)
      | inl granted ↦
          let own : job.run_id ≡ c.target_id = keyed.jobs_keyed c.target_id job found in
          executes new refl (ground arith) (ground arith) (ground arith) (ground arith)
    ]
  ]

  settle-Outcome :
      (c : OperatorCommand) (now : ℕ) (resolution : JsonObject) (review : OperatorReview)
      → receipt_at (review_command c now) repo ≡ none
      → c.resolution ≡ some resolution
      → get_review c.target_id repo ≡ some review
      → Outcome fingerprint
          (review_command c now)
          repo
          (settle fingerprint c now resolution review repo).0
          (settle fingerprint c now resolution review repo).1
  unfolding settle resolve_review record_command
  settle-Outcome c now resolution review new given found =
      elim (ℕ_discrete review.version c.expected_version) [
        | no differs ↦
            refuses stale_version new (stale review.version (ground arith) (ground arith) differs)
              (ground arith) (ground arith)
        | yes same ↦ elim (Bool-cases (is_pending review.review_status)) [
          | inr denied ↦
              refuses command_not_allowed new
                (disallowed (ground arith) (ground arith) (ground arith)) (ground arith)
                (ground arith)
          | inl granted ↦
              let own : review.review_id ≡ c.target_id =
                keyed.reviews_keyed c.target_id review found in
              executes new (ground arith) (ground arith) (ground arith) (ground arith)
                (ground arith)
        ]
      ]

  run_job_command-Outcome :
      (k : JobCommand) (c : OperatorCommand) (now : ℕ)
      → Outcome fingerprint
          (job_command k c now)
          repo
          (run_job_command fingerprint c now (allowed_for k) repo).0
          (run_job_command fingerprint c now (allowed_for k) repo).1
  unfolding run_job_command
  run_job_command-Outcome k c now = elim (Option-cases (receipt_at (job_command k c now) repo)) [
    | inr (receipt, known) ↦ replays receipt known (ground arith) (ground arith)
    | inl new ↦ elim (Option-cases (get_job c.target_id repo)) [
      | inl absent ↦
          refuses operator_target_not_found new (missing refl (ground arith)) (ground arith)
            (ground arith)
      | inr (job, found) ↦ rw (new, found, run_job_command) (attempt-Outcome k c now job new found)
    ]
  ]

  resolve-Outcome :
      (c : OperatorCommand) (now : ℕ)
      → Outcome fingerprint
          (review_command c now)
          repo
          (resolve fingerprint c now repo).0
          (resolve fingerprint c now repo).1
  unfolding resolve
  resolve-Outcome c now = elim (Option-cases (receipt_at (review_command c now) repo)) [
    | inr (receipt, known) ↦ replays receipt known (ground arith) (ground arith)
    | inl new ↦ elim (Option-cases c.resolution) [
      | inl absent ↦
          refuses command_not_allowed new (incomplete (ground arith)) (ground arith) (ground arith)
      | inr (resolution, given) ↦ elim (Option-cases (get_review c.target_id repo)) [
        | inl absent ↦
            refuses operator_target_not_found new (missing (ground arith) (ground arith))
              (ground arith) (ground arith)
        | inr (review, found) ↦
            let same : resolve fingerprint c now repo
                ≡ settle fingerprint c now resolution review repo =
              ground arith in
            subst (λ p. Outcome fingerprint (review_command c now) repo p.0 p.1) (sym same)
              (settle-Outcome c now resolution review new given found)
      ]
    ]
  ]

  -- Where jobs and reviews stand under their own identifiers, a command does one of three. One whose key has a receipt is
  -- answered from the receipt, or rejected where the fingerprints differ; one that is incomplete,
  -- whose target is missing, has another version or does not allow it is refused with the exception
  -- for it; both leave the repository as it was. Any other moves its target on from the expected
  -- version to the next, and appends one audit entry with the two versions and its receipt.
  pub perform-Outcome :
      (op : Operation)
      → Outcome fingerprint op repo (perform fingerprint op repo).0 (perform fingerprint op repo).1
  unfolding perform
  perform-Outcome (job_command k c now) =
      rw (job_command-run fingerprint k c now repo) (run_job_command-Outcome k c now)
  perform-Outcome (review_command c now) = resolve-Outcome c now
