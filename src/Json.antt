-- ===== src/Json.antt =====
-- json.dumps, for the values that the program writes.
pub mod Dumps
pub mod Strings
pub mod Printable
pub mod Reader
