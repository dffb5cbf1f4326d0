-- ===== src/Workflow.antt =====
-- fraud_platform/workflow_engine: plans, their feasibility, their execution over a persistent
-- store, and the surfaces (scheduler, API) that start runs.
pub mod State
pub mod Refs
pub mod Conditions
pub mod Plan
pub mod Tables
pub mod Store
pub mod Registry
pub mod Schedule
pub mod Feasibility
pub mod Executor
pub mod Scheduler
pub mod Promotion
pub mod Api
pub mod Tests
