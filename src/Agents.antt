-- ===== src/Agents.antt =====
-- fraud_platform/agents: which specialists look at a transaction, and in which order.
pub mod Router
