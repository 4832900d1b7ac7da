-- ===== src/Tests.antt =====
-- Runs of the model on concrete packages, and the theorems at concrete data.
pub mod Samples
pub mod ExpectTests
pub mod CompareTests
pub mod LoadTests
pub mod MainTests
pub mod SuiteTests
pub mod RegexTests
pub mod Base64Tests
pub mod TextTests
pub mod SdkTests
pub mod CliTests
