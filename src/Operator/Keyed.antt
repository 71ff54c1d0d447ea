-- ===== src/Operator/Keyed.antt =====
-- What a command of packages/operator/service.py does to the versions and the keys of jobs and
-- reviews.
use dayjaview.Prelude.{
  suc, Bool, true, false, Option, none, some, String, String-discrete, ite, ◌≡◌, refl, Option-cases,
  inl, inr, arith, if◌then◌else◌, subst, sym,
}
use dayjaview.Prelude.Dict.{get, put, get-put}
use dayjaview.Operator.Commands.{
  Target, Operation, job_target, is_complete, IsKeyed, review_target, target_of, version_at,
  advanced, command_of, job_command, review_command,
}
use dayjaview.Operator.Models.{OperatorJob, OperatorReview}
use dayjaview.Operator.Repository.{
  OperatorRepository, get_job, started, get_review, as_resolved, empty_repository, record_job,
  open_review,
}
use dayjaview.Prelude.Json.{JsonObject}

abbrev pub is_target : Target → Target → Bool
is_target (job_target a) (job_target b) = ite (String-discrete a b) true false
is_target (review_target a) (review_target b) = ite (String-discrete a b) true false
is_target (job_target a) (review_target b) = false
is_target (review_target a) (job_target b) = false

module _ (repo : OperatorRepository) where
  pub advanced-version :
      (op : Operation) (target : Target)
      → is_complete op ≡ true
      → version_at (target_of op) repo ≡ some (command_of op).expected_version
      → version_at target (advanced op repo) ≡ (
          if is_target (target_of op) target
          then some (suc (command_of op).expected_version)
          else version_at target repo)
  advanced-version (job_command k c now) (job_target id) complete current =
      elim (Option-cases (get_job c.target_id repo)) [
        | inl absent ↦ absurd (ground arith)
        | inr (job, found) ↦
            ground (arith, get-put String-discrete c.target_id id (started now job) repo.jobs)
      ]
  advanced-version (job_command k c now) (review_target id) complete current =
      elim (Option-cases (get_job c.target_id repo)) [
        | inl absent ↦ absurd (ground arith)
        | inr (job, found) ↦ ground arith
      ]
  advanced-version (review_command c now) (job_target id) complete current =
      elim (Option-cases (get_review c.target_id repo)) [
        | inl absent ↦ absurd (ground arith)
        | inr (review, found) ↦ ground arith
      ]
  advanced-version (review_command c now) (review_target id) complete current =
      elim (Option-cases (get_review c.target_id repo)) [
        | inl absent ↦ absurd (ground arith)
        | inr (review, found) ↦ elim (Option-cases c.resolution) [
          | inl no_resolution ↦ absurd (ground arith)
          | inr (resolution, given) ↦ ground (
            arith,
            get-put String-discrete c.target_id id (as_resolved resolution now review) repo.reviews,
          )
        ]
      ]

  put_job-IsKeyed :
      (id : String) (job : OperatorJob)
      → job.run_id ≡ id
      → IsKeyed repo
      → IsKeyed (record repo { jobs = put String-discrete id job repo.jobs })
  put_job-IsKeyed id job own keyed = record {
    jobs_keyed = λ j x found.
        ground (arith, get-put String-discrete id j job repo.jobs, keyed.jobs_keyed j x);
    reviews_keyed = keyed.reviews_keyed;
  }

  put_review-IsKeyed :
      (id : String) (review : OperatorReview)
      → review.review_id ≡ id
      → IsKeyed repo
      → IsKeyed (record repo { reviews = put String-discrete id review repo.reviews })
  put_review-IsKeyed id review own keyed = record {
    jobs_keyed = keyed.jobs_keyed;
    reviews_keyed = λ j x found.
        ground (arith, get-put String-discrete id j review repo.reviews, keyed.reviews_keyed j x);
  }

  pub advanced-IsKeyed : (op : Operation) → IsKeyed repo → IsKeyed (advanced op repo)
  advanced-IsKeyed (job_command k c now) keyed = advanced_job (get_job c.target_id repo) refl
    where
      advanced_job :
          (o : Option OperatorJob)
          → get_job c.target_id repo ≡ o
          → IsKeyed (advanced (job_command k c now) repo)
      advanced_job none found =
          let still : advanced (job_command k c now) repo ≡ repo = ground arith in
          subst (λ r. IsKeyed r) (sym still) keyed
      advanced_job (some job) found =
          let moved : advanced (job_command k c now) repo
              ≡ record repo { jobs = put String-discrete c.target_id (started now job) repo.jobs } =
            ground arith in
          subst (λ r. IsKeyed r) (sym moved)
            (put_job-IsKeyed c.target_id (started now job) (keyed.jobs_keyed c.target_id job found)
              keyed)
  advanced-IsKeyed (review_command c now) keyed =
      advanced_review (get_review c.target_id repo) c.resolution refl refl
    where
      advanced_review :
          (o : Option OperatorReview) (given : Option JsonObject)
          → get_review c.target_id repo ≡ o
          → c.resolution ≡ given
          → IsKeyed (advanced (review_command c now) repo)
      advanced_review none given found same =
          let still : advanced (review_command c now) repo ≡ repo = ground arith in
          subst (λ r. IsKeyed r) (sym still) keyed
      advanced_review (some review) none found same =
          let still : advanced (review_command c now) repo ≡ repo = ground arith in
          subst (λ r. IsKeyed r) (sym still) keyed
      advanced_review (some review) (some resolution) found same =
          let moved : advanced (review_command c now) repo ≡ record repo {
            reviews =
                put String-discrete c.target_id (as_resolved resolution now review) repo.reviews;
          } =
            ground arith in
          subst (λ r. IsKeyed r) (sym moved)
            (put_review-IsKeyed c.target_id (as_resolved resolution now review)
              (keyed.reviews_keyed c.target_id review found) keyed)

-- The repository that the console starts with, and the two ways in which jobs and reviews come in.
pub empty_repository-IsKeyed : IsKeyed empty_repository
unfolding get
empty_repository-IsKeyed = record { jobs_keyed = λ id job h. cc; reviews_keyed = λ id review h. cc }

pub record_job-IsKeyed :
    (job : OperatorJob) (repo : OperatorRepository) → IsKeyed repo → IsKeyed (record_job job repo)
record_job-IsKeyed job repo keyed = put_job-IsKeyed repo job.run_id job refl keyed

pub open_review-IsKeyed :
    (review : OperatorReview) (repo : OperatorRepository)
    → IsKeyed repo
    → IsKeyed (open_review review repo)
open_review-IsKeyed review repo keyed = put_review-IsKeyed repo review.review_id review refl keyed
