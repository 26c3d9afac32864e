-- ===== src/Gateway.antt =====
-- internal/gateway/gateway.go: the budgets and the attempts of a request.
pub mod Budget
pub mod Failover
mod Examples
