-- ===== src/Tests/Operator.antt =====
-- packages/operator at concrete inputs.
use dayjaview.Prelude.{
  max, true, false, none, some, List, [], ◌∷◌, map, String, String-discrete, ite, ◌≡◌, ◌≤◌, refl,
  ◌++◌, all_distinct, is_in, length, arith,
}
use dayjaview.Prelude.Dict.{get, put}
use dayjaview.Prelude.Exec.{ok, raised, command_not_allowed}
use dayjaview.Prelude.Json.{no_field}
use dayjaview.Operator.Models.{OperatorCommandResult, OperatorCommand, OperatorJob, failed}
use dayjaview.Operator.Runs.{executions, run, executions_le_one}
use dayjaview.Operator.Keyed.{record_job-IsKeyed, empty_repository-IsKeyed}
use dayjaview.Operator.Commands.{
  IsKeyed, Outcome, Operation, perform, job_command, entry_of, job_target, command_of, retry,
}
use dayjaview.Operator.Repository.{
  OperatorRepository, record_job, empty_repository, start_job_attempt, ReceiptKey-discrete,
}
use dayjaview.Operator.Pages.{collect, collect-paginate}
use dayjaview.Operator.Outcomes.{perform-Outcome}
use dayjaview.Operator.Receipts.{carried_out, perform_once, run-audit}
use dayjaview.Operator.Console.{run_job_command, attempt, record_command}

abbrev fingerprint : OperatorCommand → String
fingerprint c = c.reason

abbrev failed_job : OperatorJob
failed_job = record {
  run_id = "run-1";
  job_type = "INFOSTOCK";
  status = failed;
  version = 3;
  last_changed_at = 100;
  error_code = some "TIMEOUT";
  internal_context = no_field;
}

abbrev repository : OperatorRepository
repository = record_job failed_job empty_repository

repository-IsKeyed : IsKeyed repository
repository-IsKeyed = record_job-IsKeyed failed_job empty_repository empty_repository-IsKeyed

abbrev command : String → String → OperatorCommand
command actor key = record {
  actor_id = actor;
  idempotency_key = key;
  action = "RETRY_JOB";
  target_id = "run-1";
  reason_code = "TRANSIENT";
  reason = "again";
  expected_version = 3;
  resolution = none;
}

-- Two operators retry the same version of the job.
abbrev first : Operation
first = job_command retry (command "op-1" "key-1") 200

abbrev second : Operation
second = job_command retry (command "op-2" "key-2") 210

abbrev first_result : OperatorCommandResult
first_result = record { audit = entry_of first repository; replayed = false }

first_executed : (perform fingerprint first repository).0 ≡ ok first_result
unfolding perform run_job_command attempt start_job_attempt record_command get put String-discrete
first_executed = refl

perform-Outcome_example :
    Outcome fingerprint first repository
      (perform fingerprint first repository).0
      (perform fingerprint first repository).1
perform-Outcome_example = perform-Outcome fingerprint repository repository-IsKeyed first

executions_le_one_example :
    executions fingerprint (job_target "run-1") 3 (first ∷ second ∷ []) repository ≤ 1
executions_le_one_example =
    executions_le_one fingerprint (job_target "run-1") 3 (first ∷ second ∷ []) repository
      repository-IsKeyed

perform_once_example :
    perform fingerprint first (run fingerprint (first ∷ second ∷ []) repository) ≡ (
      ite
          (String-discrete (fingerprint (command_of first)) (fingerprint (command_of first)))
          (ok (record { audit = first_result.audit; replayed = true }))
          (raised command_not_allowed),
      run fingerprint (first ∷ second ∷ []) repository,
    )
perform_once_example =
    perform_once fingerprint first first (second ∷ []) repository first_result repository-IsKeyed
      first_executed refl refl

run-audit_example :
    (run fingerprint (first ∷ second ∷ []) repository).audit
    ≡ repository.audit ++ carried_out fingerprint (first ∷ second ∷ []) repository
run-audit_example = run-audit fingerprint (first ∷ second ∷ []) repository repository-IsKeyed

-- The second operator is refused.
one_carried_out : executions fingerprint (job_target "run-1") 3 (first ∷ second ∷ []) repository ≡ 1
unfolding executions perform run_job_command attempt start_job_attempt record_command get put
    String-discrete ReceiptKey-discrete
one_carried_out = refl

abbrev texts : List String
texts = "a" ∷ "b" ∷ "c" ∷ "d" ∷ "e" ∷ []

abbrev itself : String → String
itself s = s

texts_distinct : all_distinct String-discrete (map itself texts) ≡ true
unfolding all_distinct is_in String-discrete
texts_distinct = refl

collect-paginate_example : collect itself texts 2 (max 1 (length texts)) none ≡ ok texts
collect-paginate_example = collect-paginate itself texts 2 texts_distinct (omega arith)
