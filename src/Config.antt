-- ===== src/Config.antt =====
-- internal/config: the configuration that the gateway routes by.
mod Examples
pub mod Types
pub mod Operations
pub mod Resolve
pub mod Capabilities
pub mod Evidence
pub mod Server
pub mod Checks
pub mod Accounts
pub mod Routes
pub mod Validate
