-- ===== src/Tests/Reconciliation.antt =====
-- packages/events/reconciliation.py at concrete inputs.
use dayjaview.Prelude.{
  ℕ, ◌≡◌, refl, none, some, [], ◌∷◌, String, String-discrete, is_blank, ◌+◌, take_text, sort_by,
  insert_by, all_distinct, is_in,
}
use dayjaview.Prelude.Dict.{get, put}
use dayjaview.Prelude.Exec.{ok, raised, Result}
use dayjaview.Domain.State.{ReconciliationStatus-discrete, transition_reconciliation, unmatched}
use dayjaview.Events.Models.{
  CanonicalEvent, EventInputMetadata, CreateEventCommand, create_event, metadata_of, Digests,
  provisional, live_engine, infostock_theme, check_event, check_classification, check_metadata,
  check_reconcile,
}
use dayjaview.Events.Digest.{
  Hashing, digests_of, identity_key, event_id, command_fingerprint, outbox_message_id,
}
use dayjaview.Events.Outbox.{check_message}
use dayjaview.Events.Store.{SourceKey-discrete, EventStore, empty_store, has_log}
use dayjaview.Events.Writer.{create, reconcile, judge, reclassify, write, first_event}
use dayjaview.Events.Writer.Replay.{write_all}
use dayjaview.Events.Reconciliation.{
  Calendar, reconcile_after_close, AfterCloseConfirmation, AfterCloseReconciliationRun,
  reconcile_events, up_by_theme, eligible_events, of_day, group_rises, sort_articles,
  identifier_first, event_first, theme_first, send, articles_text, left_over,
}
use dayjaview.Events.Reconciliation.Settled.{SortsDay, reconcile_after_close-settled}
use dayjaview.Prelude.Json.{padded, digits}

-- A digest that keeps the text.
abbrev hashing : Hashing
hashing = record {
  sha256 = λ text. text;
  identity_json = λ i. i.catalyst_key;
  command_json = λ c. (metadata_of c).correlation_id;
}

abbrev digests : Digests
digests = digests_of hashing

abbrev metadata : String → ℕ → EventInputMetadata
metadata id n = record {
  message_id = id;
  source = "engine";
  source_sequence = n;
  occurred_at = n;
  received_at = n + 5;
  correlation_id = id;
  causation_id = none;
  lineage = [];
}

abbrev creation : CreateEventCommand
creation = record {
  metadata = metadata "m-1" 1;
  identity = record {
    market_date = 20_000;
    canonical_theme_id = "theme-1";
    catalyst_key = "catalyst-1";
  };
  display_name = "2차전지";
  versions = record {
    calculation_version = "c1";
    ranking_model_version = "r1";
    membership_version = "m1";
    baseline_version = none;
  };
  classification_kind = infostock_theme;
  classification_certainty = provisional;
  classification_source = live_engine;
}

abbrev after_creation : EventStore
after_creation = write_all digests (create_event creation ∷ []) empty_store

abbrev calendar : Calendar
calendar = record { timestamp = λ t. t; isoformat = λ day. "2026-01-01" }

abbrev found : CanonicalEvent
found = first_event digests creation

-- An Event of the day that is settled already.
abbrev settled_event : CanonicalEvent
settled_event = record found {
  event_id = "evt_2";
  canonical_theme_id = "theme-2";
  reconciliation_status = unmatched;
}

abbrev confirmation : AfterCloseConfirmation
confirmation = record {
  canonical_theme_id = "theme-1";
  event_date = 20_000;
  direction = "UP";
  summary = "상승";
  lineage = record {
    kind = "INFOSTOCK_THEME_HISTORY";
    identifier = "1:1";
    version = none;
    content_hash = some "h";
  };
}

abbrev ended : Result AfterCloseReconciliationRun × EventStore
ended =
    reconcile_after_close digests (λ t. t) calendar 20_000 100 (settled_event ∷ found ∷ [])
      (confirmation ∷ []) "catalyst-1" after_creation

abbrev run_in : Result AfterCloseReconciliationRun → AfterCloseReconciliationRun
run_in (ok run) = run
run_in (raised e) = record {
  market_date = 0;
  matched = [];
  unmatched = [];
  skipped_event_ids = [];
  unmatched_confirmations = [];
}

returned : ended ≡ (ok (run_in ended.0), ended.1)
unfolding reconcile_after_close reconcile_events eligible_events of_day up_by_theme group_rises
    sort_articles sort_by insert_by identifier_first event_first theme_first send articles_text
    left_over identity_key event_id command_fingerprint outbox_message_id take_text write create
    reconcile get put String-discrete is_blank check_event check_classification check_message
    has_log check_metadata check_reconcile all_distinct is_in judge reclassify write_all padded
    digits ReconciliationStatus-discrete SourceKey-discrete transition_reconciliation
returned = refl

reconcile_after_close-settled_example :
    SortsDay digests
      (λ t. t)
      calendar
      20_000
      100
      (confirmation ∷ [])
      (settled_event ∷ found ∷ [])
      "catalyst-1"
      after_creation
      ended.1
      (run_in ended.0)
reconcile_after_close-settled_example =
    reconcile_after_close-settled digests (λ t. t) calendar 20_000 100 (confirmation ∷ [])
      (settled_event ∷ found ∷ []) "catalyst-1" after_creation ended.1 (run_in ended.0) returned
