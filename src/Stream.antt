-- ===== src/Stream.antt =====
-- fraud_platform/stream_processing: scoring a transaction, and the batches of the feature engine.
pub mod Scoring
pub mod Redis
pub mod Sinks
pub mod Engine
mod Tests
