-- ===== src/Domain/State.antt =====
-- packages/domain/state.py: the three status axes of an Event and their transition tables.
pub mod Graph
use dayjaview.Prelude.{
  Bool, true, false, Option, none, some, List, [], ◌∷◌, String, String-discrete, ite, is_none,
  if◌then◌else◌, is_in,
}
use dayjaview.Prelude.Exec.{
  Result, ok, raised, value_error, invalid_state_transition, and_then, require,
}

pub data LifecycleStatus : Type 0 where
  candidate active weakening closed discarded : LifecycleStatus

pub data ReconciliationStatus : Type 0 where
  pending matched unmatched : ReconciliationStatus

pub data ReviewStatus : Type 0 where
  pending resolved : ReviewStatus

pub data StateAxis : Type 0 where
  lifecycle reconciliation review : StateAxis

unfoldable pub LifecycleStatus-discrete : Discrete LifecycleStatus
LifecycleStatus-discrete = hlevel

unfoldable pub ReconciliationStatus-discrete : Discrete ReconciliationStatus
ReconciliationStatus-discrete = hlevel

unfoldable pub ReviewStatus-discrete : Discrete ReviewStatus
ReviewStatus-discrete = hlevel

-- The values of the string enums.
abbrev pub lifecycle_value : LifecycleStatus → String
lifecycle_value candidate = "CANDIDATE"
lifecycle_value active = "ACTIVE"
lifecycle_value weakening = "WEAKENING"
lifecycle_value closed = "CLOSED"
lifecycle_value discarded = "DISCARDED"

abbrev pub reconciliation_value : ReconciliationStatus → String
reconciliation_value ReconciliationStatus.pending = "PENDING"
reconciliation_value matched = "MATCHED"
reconciliation_value unmatched = "UNMATCHED"

abbrev pub review_value : ReviewStatus → String
review_value ReviewStatus.pending = "PENDING"
review_value resolved = "RESOLVED"

abbrev pub lifecycle_targets : LifecycleStatus → List LifecycleStatus
lifecycle_targets candidate = active ∷ discarded ∷ []
lifecycle_targets active = weakening ∷ closed ∷ []
lifecycle_targets weakening = active ∷ closed ∷ []
lifecycle_targets closed = []
lifecycle_targets discarded = []

abbrev pub reconciliation_targets : ReconciliationStatus → List ReconciliationStatus
reconciliation_targets ReconciliationStatus.pending = matched ∷ unmatched ∷ []
reconciliation_targets matched = []
reconciliation_targets unmatched = matched ∷ []

abbrev pub review_targets : Option ReviewStatus → List ReviewStatus
review_targets none = ReviewStatus.pending ∷ []
review_targets (some ReviewStatus.pending) = resolved ∷ []
review_targets (some resolved) = []

pub record StateTransition : Type 0 where
  pub axis : StateAxis
  pub from_status : Option String
  pub to_status : String
  pub policy_version : String

-- `StateTransition(...)`, with `__post_init__`
unfoldable pub make_state_transition :
    StateAxis → Option String → String → String → Result StateTransition
make_state_transition axis current target policy_version =
    ite (String-discrete policy_version "") (raised value_error) (
      ok (record {
        axis = axis;
        from_status = current;
        to_status = target;
        policy_version = policy_version;
      }))

unfoldable pub require_transition :
    {S : Type 0}
    → Discrete S
    → (S → String)
    → StateAxis
    → Option S
    → S
    → List S
    → String
    → Result StateTransition
unfolding is_in make_state_transition
require_transition dec value axis current target allowed_targets policy_version =
    if is_in dec target allowed_targets
    then make_state_transition axis (elim current [ none ↦ none | some s ↦ some (value s) ])
        (value target) policy_version
    else raised invalid_state_transition

unfoldable pub transition_lifecycle :
    LifecycleStatus → LifecycleStatus → String → Result StateTransition
unfolding require_transition LifecycleStatus-discrete
transition_lifecycle current target =
    require_transition LifecycleStatus-discrete lifecycle_value lifecycle (some current) target
      (lifecycle_targets current)

unfoldable pub transition_reconciliation :
    ReconciliationStatus → ReconciliationStatus → String → Result StateTransition
unfolding require_transition ReconciliationStatus-discrete
transition_reconciliation current target =
    require_transition ReconciliationStatus-discrete reconciliation_value reconciliation
      (some current) target (reconciliation_targets current)

unfoldable pub transition_review :
    Option ReviewStatus → ReviewStatus → String → Result StateTransition
unfolding require_transition ReviewStatus-discrete
transition_review current target =
    require_transition ReviewStatus-discrete review_value review current target
      (review_targets current)
