-- ===== src/Web.antt =====
-- The web front door (src/meme_mcp/web).
pub mod Csrf
pub mod SafeNext
