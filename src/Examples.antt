-- ===== src/Examples.antt =====
-- The theorems at concrete inputs: a store with one open family, and the rows, pins and calls beside it.
pub mod Fixtures
pub mod Lifecycle
pub mod Grants
pub mod Accounts
pub mod Service
pub mod Stores
pub mod Doors
pub mod Sweeps
pub mod Texts
pub mod Reviews
pub mod Proposals
pub mod Signatures
