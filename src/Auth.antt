-- ===== src/Auth.antt =====
-- Identity, allowlist and tokens of friends (src/meme_mcp/auth).
pub mod Authorization
pub mod Allowlist
pub mod GooglePins
pub mod Pat
pub mod Sessions
