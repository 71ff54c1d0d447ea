-- ===== src/Catalyst/Models.antt =====
-- packages/catalyst/models.py: evidence, its revisions, and the theme that it is for.
use Prim.Native.String.{compare as compare_text}
use text.Mathlib.Text.{is_le}
use dayjaview.Prelude.{
  ℕ, Bool, Option, List, [], ◌∷◌, ◌++◌, String, String-discrete, append, is_blank, strip, take_text,
  sort_by, unique, ltb, if◌then◌else◌,
}
use dayjaview.Prelude.Exec.{Result, ok, raised, value_error}
use dayjaview.Domain.Decimal.{Decimal}

abbrev pub catalyst_policy_version : String
catalyst_policy_version = "catalyst-policy-2026.08.1"

pub data EvidenceStatus : Type 0 where
  searching single_source multi_source_confirmed no_new_catalyst reemergence after_close_confirmed :
      EvidenceStatus

pub data MatchBasis : Type 0 where
  by_theme by_stock by_time : MatchBasis

pub data ExtractionMethod : Type 0 where
  rule llm_grounded : ExtractionMethod

pub record ThemeContext : Type 0 where
  pub event_id : String
  pub theme_id : String
  pub display_name : String
  pub market_date : ℕ
  pub activated_at : ℕ
  pub synonyms : List String
  pub leader_names : List String
  pub leader_stock_ids : List String
  pub related_stock_ids : List String
  pub entities : List String
  pub known_catalyst_keys : List String

-- `ThemeContext.stock_ids`
unfoldable pub context_stock_ids : ThemeContext → List String
unfolding unique String-discrete
context_stock_ids c = unique String-discrete (c.leader_stock_ids ++ c.related_stock_ids)

pub record CatalystEvidence : Type 0 where
  pub news_id : String
  pub event_id : String
  pub publisher : String
  pub title : String
  pub summary : String
  pub match_basis : List MatchBasis
  pub entities : List String
  pub published_at : Option ℕ
  pub received_at : ℕ
  pub original_url : String
  pub quality_flags : List String
  pub extraction_method : ExtractionMethod
  pub model_name : Option String
  pub prompt_version : Option String
  pub confidence : Option Decimal
  pub generated_at : ℕ

pub record EvidenceRevision : Type 0 where
  pub event_id : String
  pub revision : ℕ
  pub evidence_status : EvidenceStatus
  pub summary : Option String
  pub news_ids : List String
  pub catalyst_key : Option String
  pub reason : String
  pub policy_version : String
  pub decided_at : ℕ
  pub evidence_confirmed_at : Option ℕ

-- `EvidenceRevision.__post_init__`
abbrev pub check_revision : EvidenceRevision → Result (Unit {0})
check_revision r = if ltb r.revision 1 then raised value_error else ok tt

-- `str.casefold` follows the tables of Unicode, and the digest is SHA-256 in hexadecimal.
pub record TextTools : Type 0 where
  pub casefold : String → String
  pub digest : String → String

unfoldable pub key_first : String → String → Bool
key_first a b = is_le (compare_text a b)

module _ (tools : TextTools) where
  -- The entities that are not blank, without outer spaces and in one case.
  unfoldable pub folded : List String → List String
  folded [] = []
  folded (x ∷ xs) =
      let rest = folded xs in if is_blank x then rest else tools.casefold (strip x) ∷ rest

  -- `"|".join((theme_id, *names))`
  unfoldable pub join_bars : String → List String → String
  join_bars theme_id [] = theme_id
  join_bars theme_id (x ∷ xs) = append theme_id (append "|" (join_bars x xs))

  unfoldable pub key_of : String → List String → String
  unfolding folded join_bars sort_by unique key_first take_text
  key_of theme_id entities =
      let names = sort_by key_first (unique String-discrete (folded entities)) in
      append "cat_" (take_text 32 (tools.digest (join_bars theme_id names)))
