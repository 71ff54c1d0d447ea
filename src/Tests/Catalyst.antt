-- ===== src/Tests/Catalyst.antt =====
-- packages/catalyst at concrete inputs.
use dayjaview.Prelude.{
  ℕ, false, none, List, [], ◌∷◌, String, String-discrete, ◌≡◌, ◌≤◌, refl, ◌⊎◌, arith, unique,
  without, is_blank, strip, normal_spaces,
}
use dayjaview.Catalyst.Models.{
  TextTools, ThemeContext, CatalystEvidence, rule, multi_source_confirmed,
}
use dayjaview.Catalyst.Gate.{GatePolicy, new_gate}
use dayjaview.Catalyst.History.{Recorded, record_decision-Recorded}
use dayjaview.Catalyst.Numbering.{Ruling, IsHistory, record_all, record_all-IsHistory}
use dayjaview.Catalyst.Policy.{
  strength, EvidenceDecision, decide, no_new_catalyst_after, status_of, publisher_names,
  title_names,
}
use dayjaview.Catalyst.Bounds.{searches_in, SearchCall, searches, searches_in_le}
use dayjaview.Catalyst.Cooldown.{AllApart, searches-AllApart}
use dayjaview.Catalyst.Revisions.{history, record_decision}
use dayjaview.Catalyst.Strength.{previous_strength, Maintains, ClaimsNothing, decide-strength}

abbrev tools : TextTools
tools = record { casefold = λ s. s; digest = λ s. s }

abbrev context : ThemeContext
context = record {
  event_id = "ev-1";
  theme_id = "th-1";
  display_name = "theme";
  market_date = 20_000;
  activated_at = 100;
  synonyms = [];
  leader_names = [];
  leader_stock_ids = [];
  related_stock_ids = [];
  entities = [];
  known_catalyst_keys = [];
}

abbrev evidence : String → String → CatalystEvidence
evidence publisher title = record {
  news_id = title;
  event_id = "ev-1";
  publisher = publisher;
  title = title;
  summary = "summary";
  match_basis = [];
  entities = [];
  published_at = none;
  received_at = 150;
  original_url = "https://example.com";
  quality_flags = [];
  extraction_method = rule;
  model_name = none;
  prompt_version = none;
  confidence = none;
  generated_at = 160;
}

abbrev policy : GatePolicy
policy = record { cooldown = 600; quota = 2; window = 3_600 }

abbrev call : ℕ → SearchCall
call now = record { context = context; now = now; has_local_evidence = false }

abbrev calls : List SearchCall
calls = call 0 ∷ call 700 ∷ call 1_400 ∷ []

searches_in_le_example :
    searches_in policy.window 1_400 (searches policy calls new_gate []) ≤ policy.quota
searches_in_le_example = searches_in_le policy calls 0 1_400 (omega arith) (omega arith)

searches-AllApart_example : AllApart policy (searches policy calls new_gate [])
searches-AllApart_example = searches-AllApart policy calls

abbrev decision : EvidenceDecision
decision = decide tools context [] 100 none false none no_new_catalyst_after

record_decision-Recorded_example :
    Recorded "ev-1" decision 200 []
      (record_decision "ev-1" decision 200 []).0
      (record_decision "ev-1" decision 200 []).1
record_decision-Recorded_example = record_decision-Recorded "ev-1" decision 200 []

abbrev rulings : List Ruling
rulings =
    record { event = "ev-1"; decision = decision; time = 200 }
    ∷ record { event = "ev-1"; decision = decision; time = 210 }
    ∷ []

record_all-IsHistory_example : IsHistory "ev-1" 1 none (history "ev-1" (record_all rulings []))
record_all-IsHistory_example = record_all-IsHistory rulings "ev-1"

abbrev unhurried : EvidenceDecision
unhurried = decide tools context [] 2_000_000_000 none false none no_new_catalyst_after

decide-strength_example :
    (strength unhurried.evidence_status ≡ previous_strength none)
    × (Maintains none unhurried
        ⊎ ClaimsNothing context 2_000_000_000 false no_new_catalyst_after unhurried)
decide-strength_example =
    decide-strength tools context 2_000_000_000 false no_new_catalyst_after none

abbrev two_sources : List CatalystEvidence
two_sources = evidence "A" "first" ∷ evidence "B" "second" ∷ []

two_are_confirmed :
    (decide tools context two_sources 200 none false none no_new_catalyst_after).evidence_status
    ≡ multi_source_confirmed
unfolding decide status_of publisher_names title_names unique without String-discrete is_blank strip
    normal_spaces
two_are_confirmed = refl
