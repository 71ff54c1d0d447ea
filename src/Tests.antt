-- ===== src/Tests.antt =====
-- The theorems at concrete inputs.
mod Domain
mod Hysteresis
mod HotState
mod Events
mod Delivery
mod Checkpoint
mod Operator
mod Catalyst
mod Identity
mod Reconciliation
mod Aggregation
mod Attention
mod Turnover
mod AttentionDays
mod Weights
mod ThemeMetrics
mod Timely
