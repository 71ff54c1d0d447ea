-- ===== src/Catalyst.antt =====
-- packages/catalyst: the evidence for a theme's Event.
pub mod Models
pub mod Gate
pub mod Bounds
pub mod Cooldown
pub mod Revisions
pub mod Policy
pub mod History
pub mod Numbering
pub mod Strength
