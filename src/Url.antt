-- ===== src/Url.antt =====
-- urllib.parse: the quoting of query strings.
pub mod Quoting
pub mod RoundTrip
pub mod Query
