-- ===== src/Metadata.antt =====
-- metadata_locales.py: the localized fields of a template's metadata.
pub mod Locales
