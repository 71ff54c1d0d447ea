-- ===== src/Operator.antt =====
-- packages/operator: the operator console.
pub mod Models
pub mod Pages
pub mod Repository
pub mod Console
pub mod Commands
pub mod Outcomes
pub mod Keyed
pub mod Runs
pub mod Receipts
