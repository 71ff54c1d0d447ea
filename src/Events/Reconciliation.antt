-- ===== src/Events/Reconciliation.antt =====
-- packages/events/reconciliation.py: the Events of a day meet the confirmations after the close.
use Prim.Native.String.{compare as compare_text}
use text.Mathlib.Text.{is_le}
use dayjaview.Prelude.{
  ℕ, Bool, true, false, ◌&&◌, ◌||◌, not, Option, none, some, List, [], ◌∷◌, ◌++◌, map, String,
  String-discrete, append, take_text, ite, length, sort_by, is_in, get_or, if◌then◌else◌, ◌==◌,
}
use dayjaview.Prelude.Dict.{Dict, get, put}
use dayjaview.Prelude.Json.{padded, digits}
use dayjaview.Prelude.Exec.{Result, ok, raised, construct, and_then}
use dayjaview.Events.Models.{
  EventInputMetadata, ReconcileEventCommand, CanonicalEvent, check_metadata, check_reconcile,
  lineage_key, EventWriteResult, Digests, reconcile_event,
}
use dayjaview.Domain.State.{ReconciliationStatus, matched, unmatched, pending}
use dayjaview.Events.Lineage.{LineageRef}
use dayjaview.Events.Store.{EventStore}
use dayjaview.Events.Writer.{write}
pub mod Outcomes
pub mod Rises
pub mod Settled

abbrev pub intraday_catalyst_key : String
intraday_catalyst_key = "INTRADAY_STRENGTH"

abbrev pub after_close_reconcile_policy : String
after_close_reconcile_policy = "after-close-reconcile-2026.08.1"

abbrev pub reconciliation_source : String
reconciliation_source = "after-close-reconciliation"

pub record AfterCloseConfirmation : Type 0 where
  pub canonical_theme_id : String
  pub event_date : ℕ
  pub direction : String
  pub summary : String
  pub lineage : LineageRef

pub record AfterCloseReconciliationRun : Type 0 where
  pub market_date : ℕ
  pub matched : List EventWriteResult
  pub unmatched : List EventWriteResult
  pub skipped_event_ids : List String
  pub unmatched_confirmations : List AfterCloseConfirmation

-- `int(now.timestamp())` and `market_date.isoformat()` of Python's calendar.
pub record Calendar : Type 0 where
  pub timestamp : ℕ → ℕ
  pub isoformat : ℕ → String

abbrev pub Articles : Type 0
Articles = Dict String (List AfterCloseConfirmation)

abbrev equal_texts : String → String → Bool
equal_texts a b = ite (String-discrete a b) true false

unfoldable pub identifier_first : AfterCloseConfirmation → AfterCloseConfirmation → Bool
identifier_first a b = is_le (compare_text a.lineage.identifier b.lineage.identifier)

unfoldable pub event_first : CanonicalEvent → CanonicalEvent → Bool
event_first a b = is_le (compare_text a.event_id b.event_id)

unfoldable pub theme_first : String → String → Bool
theme_first a b = is_le (compare_text a b)

abbrev pub is_rise : ℕ → AfterCloseConfirmation → Bool
is_rise market_date c = c.event_date == market_date && equal_texts c.direction "UP"

-- `up_by_theme`, before its lists are sorted
unfoldable pub group_rises : ℕ → List AfterCloseConfirmation → Articles → Articles
group_rises market_date [] groups = groups
group_rises market_date (c ∷ cs) groups = group_rises market_date cs (
    if is_rise market_date c
    then put String-discrete c.canonical_theme_id
        (get_or (get String-discrete c.canonical_theme_id groups) [] ++ (c ∷ [])) groups
    else groups)

unfoldable pub sort_articles : Articles → Articles
unfolding sort_by identifier_first
sort_articles [] = []
sort_articles ((theme, articles) ∷ groups) =
    (theme, sort_by identifier_first articles) ∷ sort_articles groups

unfoldable pub up_by_theme : ℕ → List AfterCloseConfirmation → Articles
unfolding group_rises sort_articles
up_by_theme market_date cs = sort_articles (group_rises market_date cs [])

unfoldable pub of_day : ℕ → String → List CanonicalEvent → List CanonicalEvent
of_day market_date key [] = []
of_day market_date key (e ∷ es) =
    let rest = of_day market_date key es in
    if e.market_date == market_date && equal_texts e.catalyst_key key then e ∷ rest else rest

unfoldable pub eligible_events : ℕ → String → List CanonicalEvent → List CanonicalEvent
unfolding of_day sort_by event_first
eligible_events market_date key events = sort_by event_first (of_day market_date key events)

abbrev pub is_matched : ReconciliationStatus → Bool
is_matched matched = true
is_matched pending = false
is_matched unmatched = false

abbrev pub is_unmatched : ReconciliationStatus → Bool
is_unmatched unmatched = true
is_unmatched pending = false
is_unmatched matched = false

abbrev pub has_none : {A : Type 0} → List A → Bool
has_none [] = true
has_none (x ∷ xs) = false

-- The Event is settled already.
abbrev pub is_skipped : CanonicalEvent → List AfterCloseConfirmation → Bool
is_skipped e articles =
    is_matched e.reconciliation_status
    || (has_none articles && is_unmatched e.reconciliation_status)

abbrev pub articles_for : Articles → CanonicalEvent → List AfterCloseConfirmation
articles_for groups e = get_or (get String-discrete e.canonical_theme_id groups) []

abbrev optional_text : Option String → String
optional_text none = "None"
optional_text (some s) = s

-- `"|".join(f"{identifier}:{content_hash}" ...)`
unfoldable pub articles_text : List AfterCloseConfirmation → String
articles_text [] = ""
articles_text (a ∷ rest) =
    let following = articles_text rest in
    let own = append a.lineage.identifier (append ":" (optional_text a.lineage.content_hash)) in
    if has_none rest then own else append own (append "|" following)

-- What the loop has gathered.
pub record Tally : Type 0 where
  pub matches : List EventWriteResult
  pub misses : List EventWriteResult
  pub skips : List String

module _ (d : Digests) (sha256 : String → String) (calendar : Calendar) (market_date now : ℕ) where
  abbrev pub reconcile_metadata : String → List LineageRef → EventInputMetadata
  reconcile_metadata message_id lineage = record {
    message_id = message_id;
    source = reconciliation_source;
    source_sequence = calendar.timestamp now;
    occurred_at = now;
    received_at = now;
    correlation_id = append "reconcile:" (calendar.isoformat market_date);
    causation_id = none;
    lineage = lineage;
  }

  abbrev pub matched_command : CanonicalEvent → List AfterCloseConfirmation → ReconcileEventCommand
  matched_command e articles = record {
    metadata =
        reconcile_metadata
          (append "reconcile:" (
            append e.event_id
              (append ":MATCHED:" (take_text 16 (sha256 (articles_text articles))))))
          (map (λ a. AfterCloseConfirmation.lineage a) articles);
    event_id = e.event_id;
    target = matched;
    expected_state_version = e.state_version;
    reason = append "장후 인포스탁 확정 기사 " (append (padded 1 (digits (length articles))) "건 정합");
    policy_version = after_close_reconcile_policy;
  }

  abbrev pub unmatched_command : CanonicalEvent → ReconcileEventCommand
  unmatched_command e = record {
    metadata = reconcile_metadata (append "reconcile:" (append e.event_id ":UNMATCHED")) [];
    event_id = e.event_id;
    target = unmatched;
    expected_state_version = e.state_version;
    reason = "장후 인포스탁 확정 기사 없음";
    policy_version = after_close_reconcile_policy;
  }

  abbrev pub command_for : CanonicalEvent → List AfterCloseConfirmation → ReconcileEventCommand
  command_for e articles =
      if has_none articles then unmatched_command e else matched_command e articles

  abbrev pub write_checked :
      Result ReconcileEventCommand → EventStore → Result EventWriteResult × EventStore
  write_checked (raised e) store = (raised e, store)
  write_checked (ok command) store = write d (reconcile_event command) store

  -- The command is built, with the checks of its metadata and its own, and written.
  unfoldable pub send : ReconcileEventCommand → EventStore → Result EventWriteResult × EventStore
  send command = write_checked (
      and_then (construct check_metadata command.metadata) (λ _. construct check_reconcile command))

  abbrev pub noted : List AfterCloseConfirmation → EventWriteResult → Tally → Tally
  noted articles result tally =
      if has_none articles
      then record tally { misses = tally.misses ++ (result ∷ []) }
      else record tally { matches = tally.matches ++ (result ∷ []) }

  abbrev pub noted_skip : CanonicalEvent → Tally → Tally
  noted_skip e tally = record tally { skips = tally.skips ++ (e.event_id ∷ []) }

  -- The loop over the eligible Events.
  unfoldable pub reconcile_events :
      Articles → List CanonicalEvent → Tally → EventStore → Result Tally × EventStore
  unfolding send
  reconcile_events groups [] tally store = (ok tally, store)
  reconcile_events groups (e ∷ es) tally store =
      let articles : List AfterCloseConfirmation = articles_for groups e in
      if is_skipped e articles
      then reconcile_events groups es (noted_skip e tally) store
      else (let (r, after) = send (command_for e articles) store in
          elim r [
            | raised x ↦ (raised x, after)
            | ok result ↦ reconcile_events groups es (noted articles result tally) after
          ])

  -- The confirmations of themes without an eligible Event, by theme.
  unfoldable pub left_over : List String → List String → Articles → List AfterCloseConfirmation
  unfolding is_in String-discrete
  left_over themes [] groups = []
  left_over themes (t ∷ ts) groups =
      let rest = left_over themes ts groups in
      if is_in String-discrete t themes
      then rest
      else get_or (get String-discrete t groups) [] ++ rest

  abbrev pub run_of : Articles → List CanonicalEvent → Tally → AfterCloseReconciliationRun
  run_of groups eligible tally = record {
    market_date = market_date;
    matched = tally.matches;
    unmatched = tally.misses;
    skipped_event_ids = tally.skips;
    unmatched_confirmations =
        left_over (map (λ e. CanonicalEvent.canonical_theme_id e) eligible)
          (sort_by theme_first (map (λ g. g.0) groups)) groups;
  }

  abbrev pub empty_tally : Tally
  empty_tally = record { matches = []; misses = []; skips = [] }

  abbrev pub finished :
      Articles
      → List CanonicalEvent
      → Result Tally × EventStore
      → Result AfterCloseReconciliationRun × EventStore
  finished groups eligible (raised e, after) = (raised e, after)
  finished groups eligible (ok tally, after) = (ok (run_of groups eligible tally), after)

  unfoldable pub reconcile_after_close :
      List CanonicalEvent
      → List AfterCloseConfirmation
      → String
      → EventStore
      → Result AfterCloseReconciliationRun × EventStore
  unfolding reconcile_events eligible_events up_by_theme left_over sort_by theme_first
  reconcile_after_close events confirmations key store =
      let groups = up_by_theme market_date confirmations in
      let eligible = eligible_events market_date key events in
      finished groups eligible (reconcile_events groups eligible empty_tally store)
