-- ===== src/Config.antt =====
-- internal/config/config.go: the settings of the gateway, read from environment variables.
pub mod Env
pub mod Load
pub mod Rules
pub mod Bounds
pub mod Wraps
pub mod Written
pub mod Tests
