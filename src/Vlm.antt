-- ===== src/Vlm.antt =====
-- The text that comes from models, from the web and from friends (src/meme_mcp/vlm).
pub mod Sanitize
pub mod Drift
