-- ===== src/Startup.antt =====
-- services/*/cmd/main.go: how a service starts, serves and stops.
pub mod Config
pub mod Settings
pub mod Unchecked
pub mod Lifecycle
pub mod Loading
pub mod Release
pub mod Prepared
mod Examples
