-- ===== src/Uploads.antt =====
-- Uploads (src/meme_mcp/upload, src/meme_mcp/db/uploads.py, src/meme_mcp/cli/gc_uploads.py).
pub mod Pending
pub mod Collection
pub mod Dedupe
pub mod Approval
pub mod Machine
pub mod Analysis
pub mod Validation
