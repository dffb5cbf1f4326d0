-- ===== src/Observability.antt =====
-- fraud_platform/observability: the metrics of an evaluation, the redaction of traces and their rows.
pub mod Audit
pub mod Metrics
pub mod Redaction
mod Tests
