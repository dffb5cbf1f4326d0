-- ===== src/Db.antt =====
-- fraud_platform/db: the schema contract, the validators at the write boundary and the migrations.
pub mod Schema
pub mod Validators
pub mod Migrate
mod Tests
