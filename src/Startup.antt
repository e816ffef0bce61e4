-- ===== src/Startup.antt =====
-- The start of the operator (cmd/main.go, internal/config/config.go): its configuration, the
-- Vault client, the certificates of its webhooks, and what it hands to the reconcilers and to
-- the validators.
pub mod Texts
pub mod Config
pub mod Webhooks
pub mod Entry
pub mod Bundles
pub mod Excluded
pub mod Telemetry
pub mod Main
pub mod Order
pub mod Silent
pub mod Served
pub mod Starting
pub mod Registering
pub mod Certs
