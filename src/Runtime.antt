-- ===== src/Runtime.antt =====
-- internal/gateway/runtime.go: accounts at run time, and the scheduler.
pub mod Capacity
pub mod Breaker
pub mod Hash
pub mod State
pub mod Health
pub mod Order
pub mod Targets
pub mod Select
pub mod Reload
pub mod Wait
mod Examples
