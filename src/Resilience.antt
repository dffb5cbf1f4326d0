-- ===== src/Resilience.antt =====
-- fraud_platform/common/resilience.py: error classification, bounded retries and the breaker.
pub mod Classify
pub mod Retry
pub mod Breaker
mod Tests
