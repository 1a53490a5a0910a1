-- ===== src/Db.antt =====
-- Stores of the application (src/meme_mcp/db).
pub mod Receipts
pub mod Templates
pub mod Renders
