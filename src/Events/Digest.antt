-- ===== src/Events/Digest.antt =====
-- The names that packages/events/models.py derives by SHA-256 from canonical JSON.
use dayjaview.Prelude.{String, append, take_text}
use dayjaview.Events.Models.{CanonicalEventIdentity, EventCommand, Digests}

-- The libraries that the names rest on: `hashlib.sha256(text.encode("utf-8")).hexdigest()`, and
-- `json.dumps` of the dictionary of an identity and of a command.
pub record Hashing : Type 0 where
  pub sha256 : String → String
  pub identity_json : CanonicalEventIdentity → String
  pub command_json : EventCommand → String

module _ (h : Hashing) where
  -- `_opaque_id`
  unfoldable pub opaque_id : String → String → String
  opaque_id prefix value = append prefix (append "_" (take_text 32 (h.sha256 value)))

  unfoldable pub identity_key : CanonicalEventIdentity → String
  unfolding opaque_id
  identity_key identity = opaque_id "eventkey" (h.identity_json identity)

  unfoldable pub event_id : CanonicalEventIdentity → String
  unfolding identity_key
  event_id identity = opaque_id "evt" (identity_key identity)

  unfoldable pub command_fingerprint : EventCommand → String
  command_fingerprint command = h.sha256 (h.command_json command)

  unfoldable pub outbox_message_id : String → String → String
  unfolding opaque_id
  outbox_message_id command_message_id event_type =
      opaque_id "msg" (append command_message_id (append ":" event_type))

  -- The digests that the writer is run with.
  abbrev pub digests_of : Digests
  digests_of = record {
    command_fingerprint = command_fingerprint;
    identity_key = identity_key;
    event_id = event_id;
    outbox_message_id = outbox_message_id;
  }
