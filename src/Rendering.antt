-- ===== src/Rendering.antt =====
-- rendering/: the parts that are not pixels.
pub mod Signing
