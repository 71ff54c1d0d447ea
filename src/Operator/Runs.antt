-- ===== src/Operator/Runs.antt =====
-- Sequences of the commands of packages/operator/service.py.
use dayjaview.Prelude.{
  ℕ, suc, Bool, true, false, not, Option, none, some, String, ◌≡◌, refl, Bool-cases, inl, inr, ◌⊎◌,
  ◌≤◌, arith, List, if◌then◌else◌, ◌∷◌, ◌&&◌, ◌+◌, [], ◌==◌, subst, sym, ap, ◌<◌, ◌∙◌, ℕ_discrete,
}
use dayjaview.Operator.Commands.{
  Target, Operation, job_target, IsKeyed, review_target, target_of, perform, version_at, advanced,
  command_of, Outcome, replays, refuses, executes,
}
use dayjaview.Operator.Models.{
  OperatorCommand, OperatorCommandResult, OperatorCommandReceipt, OperatorAuditEntry,
}
use dayjaview.Prelude.Exec.{Result, ok, raised}
use dayjaview.Operator.Repository.{OperatorRepository, store_receipt, append_audit}
use dayjaview.Operator.Console.{replay}
use dayjaview.Operator.Outcomes.{perform-Outcome}
use dayjaview.Operator.Keyed.{advanced-IsKeyed, is_target, advanced-version}

-- Whether a command was carried out, and not answered from a receipt or refused.
abbrev pub is_executed : Result OperatorCommandResult → Bool
is_executed (ok result) = not result.replayed
is_executed (raised e) = false

-- One, where the command was carried out on the target and expected the version.
abbrev pub hits : Target → ℕ → Operation → Result OperatorCommandResult → ℕ
hits target v op r =
    if is_target (target_of op) target && (command_of op).expected_version == v && is_executed r
    then 1
    else 0

-- The later version is no smaller.
abbrev pub Later : Option ℕ → Option ℕ → Type 0
Later none later = later ≡ none
Later (some v) none = ⊥
Later (some v) (some w) = v ≤ w

Later-refl : (o : Option ℕ) → Later o o
Later-refl none = refl
Later-refl (some v) = omega arith

Later-next : (o p : Option ℕ) (v : ℕ) → o ≡ some v → p ≡ some (suc v) → Later o p
Later-next o p v before after = rw (before, after) (omega arith)

Later-of_eq : (o p : Option ℕ) → p ≡ o → Later o p
Later-of_eq o p same = rw same (Later-refl o)

is_target_sound : (a b : Target) → is_target a b ≡ true → a ≡ b
is_target_sound (job_target a) (job_target b) h = ground arith
is_target_sound (review_target a) (review_target b) h = ground arith
is_target_sound (job_target a) (review_target b) h = absurd (ground arith)
is_target_sound (review_target a) (job_target b) h = absurd (ground arith)

-- Neither the log nor the receipts hold a version.
recorded-version :
    (target : Target) (receipt : OperatorCommandReceipt) (entry : OperatorAuditEntry)
    (repo : OperatorRepository)
    → version_at target (store_receipt receipt (append_audit entry repo)) ≡ version_at target repo
recorded-version (job_target id) receipt entry repo = refl
recorded-version (review_target id) receipt entry repo = refl

module _ (fingerprint : OperatorCommand → String) where
  unfoldable pub run : List Operation → OperatorRepository → OperatorRepository
  run [] repo = repo
  run (op ∷ ops) repo = run ops (perform fingerprint op repo).1

  -- How many commands were carried out on the target that expected the version.
  unfoldable pub executions : Target → ℕ → List Operation → OperatorRepository → ℕ
  executions target v [] repo = 0
  executions target v (op ∷ ops) repo =
      hits target v op (perform fingerprint op repo).0
      + executions target v ops (perform fingerprint op repo).1

module _ (fingerprint : OperatorCommand → String) (op : Operation) (repo : OperatorRepository) where
  Outcome-IsKeyed :
      (r : Result OperatorCommandResult) (after : OperatorRepository)
      → Outcome fingerprint op repo r after
      → IsKeyed repo
      → IsKeyed after
  Outcome-IsKeyed r after (replays receipt _ _ e) keyed = rw e keyed
  Outcome-IsKeyed r after (refuses x _ _ _ e) keyed = rw e keyed
  Outcome-IsKeyed r after (executes _ _ _ _ _ e) keyed =
      let moved = advanced-IsKeyed repo op keyed in
      rw e (record { jobs_keyed = moved.jobs_keyed; reviews_keyed = moved.reviews_keyed })

  -- A step leaves the versions alone, or takes the expected version of the target to the next.
  abbrev Steps : Target → ℕ → Result OperatorCommandResult → OperatorRepository → Type 0
  Steps target v r after =
      (hits target v op r ≡ 0) × Later (version_at target repo) (version_at target after)
      ⊎ (hits target v op r ≡ 1)
        × (version_at target repo ≡ some v)
        × (version_at target after ≡ some (suc v))

  Outcome-Steps :
      (target : Target) (v : ℕ) (r : Result OperatorCommandResult) (after : OperatorRepository)
      → Outcome fingerprint op repo r after
      → Steps target v r after
  unfolding replay
  Outcome-Steps target v r after (replays receipt _ answer e) =
      inl (ground arith, rw e (Later-refl (version_at target repo)))
  Outcome-Steps target v r after (refuses x _ _ answer e) =
      inl (ground arith, rw e (Later-refl (version_at target repo)))
  Outcome-Steps target v r after (executes _ complete current _ answer e) =
      let moved : version_at target after ≡ (
          if is_target (target_of op) target
          then some (suc (command_of op).expected_version)
          else version_at target repo) =
        ap (version_at target) e
        ∙ recorded-version target _ _ (advanced op repo)
        ∙ advanced-version repo op target complete current in
      elim (Bool-cases (is_target (target_of op) target)) [
        | inr other ↦ inl (ground arith, Later-of_eq _ _ (ground arith))
        | inl same ↦
            let before : version_at target repo ≡ some (command_of op).expected_version =
              subst (λ t. version_at t repo ≡ some (command_of op).expected_version)
                (is_target_sound _ _ same) current in
            elim (ℕ_discrete (command_of op).expected_version v) [
              | yes hit ↦ inr (ground arith, before ∙ ap some hit, ground arith)
              | no differs ↦ inl (ground arith, Later-next _ _ _ before (ground arith))
            ]
      ]

module _ (fingerprint : OperatorCommand → String) where
  pub perform-IsKeyed :
      (op : Operation) (repo : OperatorRepository)
      → IsKeyed repo
      → IsKeyed (perform fingerprint op repo).1
  perform-IsKeyed op repo keyed =
      Outcome-IsKeyed fingerprint op repo _ _ (perform-Outcome fingerprint repo keyed op) keyed

module _ (fingerprint : OperatorCommand → String) (target : Target) (v : ℕ) where
  perform-Steps :
      (op : Operation) (repo : OperatorRepository)
      → IsKeyed repo
      → Steps fingerprint op repo target v
          (perform fingerprint op repo).0
          (perform fingerprint op repo).1
  perform-Steps op repo keyed =
      Outcome-Steps fingerprint op repo target v _ _ (perform-Outcome fingerprint repo keyed op)

  -- The version has gone past `v`, or there is no such target.
  abbrev Past : Option ℕ → Type 0
  Past none = Unit
  Past (some w) = v < w

  Past-Later : (o p : Option ℕ) → Past o → Later o p → Past p
  Past-Later none p past later = rw later tt
  Past-Later (some w) none past later = absurd later
  Past-Later (some w) (some x) past later = omega (arith, past, later)

  executions-Past :
      (ops : List Operation) (repo : OperatorRepository)
      → IsKeyed repo
      → Past (version_at target repo)
      → executions fingerprint target v ops repo ≡ 0
  unfolding executions
  executions-Past [] repo keyed past = refl
  executions-Past (op ∷ ops) repo keyed past = elim (perform-Steps op repo keyed) [
    | inl (miss, later) ↦
        let rest =
          executions-Past ops _ (perform-IsKeyed fingerprint op repo keyed)
            (Past-Later _ _ past later) in
        omega (arith, miss, rest)
    | inr (hit, current, next) ↦ absurd (omega (arith, subst Past current past))
  ]

  -- Whatever commands follow each other, in any order and by any operators, on jobs and reviews that stand under
  -- their own identifiers: of those that expect the same version of the same job or review, at
  -- most one is carried out.
  pub executions_le_one :
      (ops : List Operation) (repo : OperatorRepository)
      → IsKeyed repo
      → executions fingerprint target v ops repo ≤ 1
  unfolding executions
  executions_le_one [] repo keyed = omega arith
  executions_le_one (op ∷ ops) repo keyed = elim (perform-Steps op repo keyed) [
    | inl (miss, later) ↦
        omega (arith, miss, executions_le_one ops _ (perform-IsKeyed fingerprint op repo keyed))
    | inr (hit, current, next) ↦
        let rest =
          executions-Past ops _ (perform-IsKeyed fingerprint op repo keyed)
            (subst Past (sym next) (omega arith)) in
        omega (arith, hit, rest)
  ]
