-- ===== src/Catalyst/Gate.antt =====
-- `SupplementalSearchGate` of packages/catalyst/supplemental.py.
use dayjaview.Prelude.{
  ℕ, ◌+◌, Bool, false, Option, none, some, List, [], ◌∷◌, ◌++◌, String, String-discrete, length,
  ltb, leb, is_blank, strip, unique, if◌then◌else◌,
}
use dayjaview.Prelude.Dict.{Dict, get, put}
use dayjaview.Catalyst.Models.{ThemeContext}

pub data SupplementalDenial : Type 0 where
  local_evidence_exists in_cooldown quota_exhausted : SupplementalDenial

pub record SupplementalSearchRequest : Type 0 where
  pub event_id : String
  pub theme_id : String
  pub query_terms : List String
  pub requested_at : ℕ

pub record SupplementalDecision : Type 0 where
  pub request : Option SupplementalSearchRequest
  pub denial : Option SupplementalDenial

pub record GatePolicy : Type 0 where
  pub cooldown : ℕ
  pub quota : ℕ
  pub window : ℕ

-- What the gate remembers.
pub record SupplementalSearchGate : Type 0 where
  pub last_request : Dict String ℕ
  pub calls : List ℕ

abbrev pub new_gate : SupplementalSearchGate
new_gate = record { last_request = []; calls = [] }

-- The terms that are not blank, without outer spaces.
unfoldable pub stripped : List String → List String
stripped [] = []
stripped (x ∷ xs) = let rest = stripped xs in if is_blank x then rest else strip x ∷ rest

unfoldable pub query_terms : ThemeContext → List String
unfolding stripped unique String-discrete
query_terms context =
    unique String-discrete
      (stripped (context.display_name ∷ (context.synonyms ++ context.leader_names)))

abbrev pub search_request : ThemeContext → ℕ → SupplementalSearchRequest
search_request context now = record {
  event_id = context.event_id;
  theme_id = context.theme_id;
  query_terms = query_terms context;
  requested_at = now;
}

abbrev pub deny : SupplementalDenial → SupplementalDecision
deny d = record { request = none; denial = some d }

abbrev pub grant : ThemeContext → ℕ → SupplementalDecision
grant context now = record { request = some (search_request context now); denial = none }

-- `now - previous < cooldown`, of a request that may not be there
abbrev pub is_cooling : ℕ → ℕ → Option ℕ → Bool
is_cooling cooldown now none = false
is_cooling cooldown now (some previous) = ltb now (previous + cooldown)

-- `[called for called in calls if now - called < window]`
unfoldable pub recent : ℕ → ℕ → List ℕ → List ℕ
recent window now [] = []
recent window now (c ∷ cs) =
    let rest = recent window now cs in if ltb now (c + window) then c ∷ rest else rest

module _ (policy : GatePolicy) where
  -- The part of `request` after the cooldown.
  unfoldable pub admit_call :
      ThemeContext → ℕ → SupplementalSearchGate → SupplementalDecision × SupplementalSearchGate
  unfolding recent
  admit_call context now gate =
      let calls = recent policy.window now gate.calls in
      if leb policy.quota (length calls)
      then (deny quota_exhausted, record gate { calls = calls })
      else (
        grant context now,
        record {
          last_request = put String-discrete context.event_id now gate.last_request;
          calls = calls ++ (now ∷ []);
        },
      )

  unfoldable pub request_search :
      ThemeContext
      → ℕ
      → Bool
      → SupplementalSearchGate
      → SupplementalDecision × SupplementalSearchGate
  unfolding admit_call
  request_search context now has_local_evidence gate =
      if has_local_evidence
      then (deny local_evidence_exists, gate)
      else if is_cooling policy.cooldown now
          (get String-discrete context.event_id gate.last_request)
      then (deny in_cooldown, gate)
      else admit_call context now gate
