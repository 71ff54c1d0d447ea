-- ===== src/Events.antt =====
-- packages/events: canonical Events, their writer and the outbox.
pub mod Delivery
pub mod Reconciliation
pub mod Digest
pub mod Lineage
pub mod Models
pub mod Outbox
pub mod Store
pub mod Writer
