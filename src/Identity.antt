-- ===== src/Identity.antt =====
-- packages/identity: users, sessions, tickets and saved items.
pub mod Models
pub mod Repository
pub mod Sessions
pub mod Tickets
pub mod Operations
pub mod Spent
pub mod Lifetimes
pub mod Endings
pub mod Guards
