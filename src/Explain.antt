-- ===== src/Explain.antt =====
-- scripts/explain_manifest/explain.py: what is known of each file of a package.
pub mod Value
pub mod Info
pub mod Attributes
pub mod Load
pub mod Nginx
pub mod Lines
