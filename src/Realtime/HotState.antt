-- ===== src/Realtime/HotState.antt =====
-- packages/realtime/hot_state.py: the latest state of each stock.
mod Store
pub mod Invariant
pub mod Steps
pub mod Soundness
pub mod Progress
pub mod Runs
pub mod Checkpoint
pub mod Agreement
pub mod Restore
unfoldable pub use Store.*
