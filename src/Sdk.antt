-- ===== src/Sdk.antt =====
-- kong/plugins/api-version/sdk: the scripts that talk to the key service.
pub mod Params
pub mod Script
pub mod Cli
pub mod Decrypt
