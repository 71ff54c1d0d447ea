-- ===== src/Realtime/Hysteresis.antt =====
-- packages/realtime/hysteresis.py: the lifecycle reducer of one theme.
mod Models
mod Reduce
pub mod Consistency
pub mod Decisions
pub mod Streak
pub mod Moves
pub mod Causes
unfoldable pub use Models.*
unfoldable pub use Reduce.*
