-- ===== src/Store.antt =====
-- internal/storage over the schema of migrations/: the tables, the world of a request, and the
-- transaction helper with its retries.
pub mod Schema
pub mod World
pub mod Inversion
pub mod Tx
pub mod Outcome
pub mod Keeps
pub mod Checks
