-- ===== src/Suites.antt =====
-- scripts/explain_manifest/suites.py: the tests, as the calls that each function makes.
pub mod Common
pub mod Libc
pub mod Docker
pub mod Requirements
