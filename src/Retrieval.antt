-- ===== src/Retrieval.antt =====
-- fraud_platform/retrieval: how policy documents are cut into chunks before they are embedded.
pub mod Chunker
mod Tests
