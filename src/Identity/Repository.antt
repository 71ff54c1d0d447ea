-- ===== src/Identity/Repository.antt =====
-- `InMemoryIdentityRepository` of packages/identity/repository.py.
mod State
mod Accounts
mod Saved
unfoldable pub use State.*
unfoldable pub use Accounts.*
unfoldable pub use Saved.*
