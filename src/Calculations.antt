-- ===== src/Calculations.antt =====
-- packages/calculations: the metrics of themes and the intervals of attention.
pub mod Policies
pub mod Attention
pub mod Intervals
pub mod Calendar
pub mod Turnover
pub mod Metrics
pub mod AttentionDay
pub mod Weights
pub mod StockReturn
pub mod ThemeMetrics
