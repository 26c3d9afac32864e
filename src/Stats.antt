-- ===== src/Stats.antt =====
-- internal/gateway/stats.go: request statistics.
mod Examples
pub mod Truncate
pub mod Records
pub mod Routes
pub mod Ring
pub mod Trend
pub mod Recent
