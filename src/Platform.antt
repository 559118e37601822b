-- ===== src/Platform.antt =====
-- internal/platform and the adapters of the broker: what every process is built from.
pub mod Logging
pub mod Server
pub mod Publisher
