-- ===== src/Oauth.antt =====
-- The OAuth authorization server (src/meme_mcp/oauth).
pub mod Scopes
pub mod Schema
pub mod Store
pub mod Redirect
pub mod Protocol
pub mod Provider
pub mod Consent
