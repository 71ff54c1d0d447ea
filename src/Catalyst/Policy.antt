-- ===== src/Catalyst/Policy.antt =====
-- packages/catalyst/policy.py: what a theme's evidence comes to.
use dayjaview.Prelude.{
  ℕ, ◌+◌, Bool, false, ◌&&◌, Option, none, some, List, [], ◌∷◌, ◌++◌, map, String, String-discrete,
  length, ltb, leb, is_blank, strip, unique, append, normal_spaces, is_in, if◌then◌else◌,
}
use dayjaview.Catalyst.Models.{
  ThemeContext, EvidenceStatus, EvidenceRevision, CatalystEvidence, TextTools,
  catalyst_policy_version, searching, key_of, multi_source_confirmed, after_close_confirmed,
  no_new_catalyst, reemergence, single_source,
}
use dayjaview.Prelude.Json.{padded, digits}

-- `NO_NEW_CATALYST_AFTER`, in microseconds
abbrev pub no_new_catalyst_after : ℕ
no_new_catalyst_after = 1_200_000_000

abbrev pub strength : EvidenceStatus → ℕ
strength searching = 0
strength no_new_catalyst = 0
strength single_source = 1
strength reemergence = 1
strength multi_source_confirmed = 2
strength after_close_confirmed = 3

pub record EvidenceDecision : Type 0 where
  pub evidence_status : EvidenceStatus
  pub summary : Option String
  pub news_ids : List String
  pub catalyst_key : Option String
  pub reason : String
  pub policy_version : String

-- A decision that names no evidence.
abbrev pub bare : EvidenceStatus → String → EvidenceDecision
bare status reason = record {
  evidence_status = status;
  summary = none;
  news_ids = [];
  catalyst_key = none;
  reason = reason;
  policy_version = catalyst_policy_version;
}

abbrev pub maintained : EvidenceRevision → EvidenceDecision
maintained previous = record {
  evidence_status = previous.evidence_status;
  summary = previous.summary;
  news_ids = previous.news_ids;
  catalyst_key = previous.catalyst_key;
  reason = "이미 확인된 근거를 유지했습니다";
  policy_version = catalyst_policy_version;
}

-- The part of `_without_evidence` after the test of the previous revision.
unfoldable pub without_previous : ThemeContext → ℕ → Bool → ℕ → EvidenceDecision
without_previous context now sources_degraded after =
    if sources_degraded
    then bare searching "공급원 수집이 지연돼 소재 없음으로 판정하지 않았습니다"
    else if leb (context.activated_at + after) now
    then bare no_new_catalyst "정상 수집 상태에서 관련 기사를 찾지 못했습니다"
    else bare searching "근거를 계속 확인하는 중입니다"

unfoldable pub without_evidence :
    ThemeContext → ℕ → Option EvidenceRevision → Bool → ℕ → EvidenceDecision
unfolding without_previous
without_evidence context now none sources_degraded after =
    without_previous context now sources_degraded after
without_evidence context now (some previous) sources_degraded after =
    if ltb 0 (strength previous.evidence_status)
    then maintained previous
    else without_previous context now sources_degraded after

abbrev pub news_of : List CatalystEvidence → List String
news_of = map (λ e. CatalystEvidence.news_id e)

unfoldable pub entities_of : List CatalystEvidence → List String
entities_of [] = []
entities_of (e ∷ es) = e.entities ++ entities_of es

module _ (tools : TextTools) where
  -- The publishers that are not blank, as they are compared.
  unfoldable pub publisher_names : List CatalystEvidence → List String
  publisher_names [] = []
  publisher_names (e ∷ es) =
      let rest = publisher_names es in
      if is_blank e.publisher then rest else tools.casefold (strip e.publisher) ∷ rest

  -- The titles that are not blank, as they are compared.
  unfoldable pub title_names : List CatalystEvidence → List String
  title_names [] = []
  title_names (e ∷ es) =
      let rest = title_names es in
      if is_blank e.title then rest else tools.casefold (normal_spaces e.title) ∷ rest

  unfoldable pub evidence_key : ThemeContext → List CatalystEvidence → Option String
  unfolding entities_of unique String-discrete key_of
  evidence_key context evidence = elim (unique String-discrete (entities_of evidence)) [
    | [] ↦ none
    | e ∷ es ↦ some (key_of tools context.theme_id (e ∷ es))
  ]

  abbrev pub is_known : ThemeContext → Option String → Bool
  is_known context none = false
  is_known context (some key) = is_in String-discrete key context.known_catalyst_keys

  -- `len(set(names))`
  abbrev pub count_distinct : List String → ℕ
  count_distinct names = length (unique String-discrete names)

  unfoldable pub status_of : ThemeContext → List CatalystEvidence → EvidenceStatus × String
  unfolding publisher_names title_names evidence_key unique is_in String-discrete
  status_of context evidence =
      if leb 2 (count_distinct (publisher_names evidence))
        && leb 2 (count_distinct (title_names evidence))
      then (
        multi_source_confirmed,
        append "독립 매체 " (
            append (padded 1 (digits (count_distinct (publisher_names evidence))))
              "곳에서 같은 소재를 확인했습니다"),
      )
      else if is_known context (evidence_key context evidence)
      then (reemergence, "이전 거래일에 확인된 소재가 다시 부각됐습니다")
      else (single_source, "단일 매체 보도로 확인된 추정입니다")

  unfoldable pub decide :
      ThemeContext
      → List CatalystEvidence
      → ℕ
      → Option EvidenceRevision
      → Bool
      → Option String
      → ℕ
      → EvidenceDecision
  unfolding status_of evidence_key unique String-discrete without_evidence
  decide context evidence now previous sources_degraded (some closing) after = record {
    evidence_status = after_close_confirmed;
    summary = some closing;
    news_ids = news_of evidence;
    catalyst_key = evidence_key context evidence;
    reason = "인포스탁 장후 확정을 같은 Event에 반영했습니다";
    policy_version = catalyst_policy_version;
  }
  decide context [] now previous sources_degraded none after =
      without_evidence context now previous sources_degraded after
  decide context (e ∷ es) now previous sources_degraded none after = record {
    evidence_status = (status_of context (e ∷ es)).0;
    summary = some e.summary;
    news_ids = unique String-discrete (news_of (e ∷ es));
    catalyst_key = evidence_key context (e ∷ es);
    reason = (status_of context (e ∷ es)).1;
    policy_version = catalyst_policy_version;
  }
