-- ===== src/Expect.antt =====
-- scripts/explain_manifest/expect.py: the chained assertions on the files of a package.
pub mod State
pub mod Operators
pub mod Compare
pub mod Chain
pub mod Script
pub mod Assertion
