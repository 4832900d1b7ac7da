-- ===== src/Config.antt =====
-- scripts/explain_manifest/config.py: the change that is made to some files before they are
-- looked at, and the suites by target.
pub mod Transform
pub mod Targets
