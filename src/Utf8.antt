-- ===== src/Utf8.antt =====
-- UTF-8, as `str.encode` and `bytes.decode` of Python write and read it.
pub mod Encoding
pub mod Decoding
pub mod RoundTrip
pub mod Bounds
pub mod Ascii
