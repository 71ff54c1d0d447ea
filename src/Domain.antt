-- ===== src/Domain.antt =====
-- packages/domain: what the other packages share.
pub mod State
pub mod Coverage
pub mod Decimal
pub mod Market
pub mod Membership
pub mod References
pub mod Reasons
pub mod Arithmetic
