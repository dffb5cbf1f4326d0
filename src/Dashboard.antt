-- ===== src/Dashboard.antt =====
-- fraud_platform/bi_dashboard: the guard between generated SQL and the warehouse.
pub mod SqlGuard
mod Tests
