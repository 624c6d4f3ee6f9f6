-- ===== src/Analytics.antt =====
-- internal/analytics: what is told of the stored flows.
pub mod Anomaly
pub mod Cost
pub mod Totals
mod Tests
