-- ===== src/Oauth/Store.antt =====
-- oauth/store.py: `SQLiteOAuthStore`, one module for each of its sections.
pub mod Clients
pub mod Approvals
pub mod Pending
pub mod Codes
pub mod Tokens
pub mod Rotation
pub mod Revocation
pub mod Gc
pub mod Steps
