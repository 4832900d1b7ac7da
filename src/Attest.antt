-- ===== src/Attest.antt =====
-- kong/plugins/attest/sdk: the script that encodes a request, and the server.
pub mod Base64
pub mod Server
