-- ===== src/Realtime.antt =====
-- packages/realtime: the hot path from stock updates to theme lifecycles.
pub mod Hysteresis
pub mod Models
pub mod HotState
pub mod Aggregation
