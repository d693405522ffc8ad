-- ===== src/CostTracker.antt =====
-- The cost tracker: intelliroute/cost_tracker.
pub mod Accounting
pub mod Service
pub mod Example
mod Tests
