-- ===== src/HealthMonitor.antt =====
-- The health monitor (intelliroute/health_monitor/).
pub mod Breaker
pub mod Monitor
mod Tests
