-- ===== src/Governance.antt =====
-- fraud_platform/governance: the tier policy and the store of decisions with its review queue.
pub mod Policy
pub mod Hitl
pub mod Autonomy
mod Tests
