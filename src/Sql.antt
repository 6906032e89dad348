-- ===== src/Sql.antt =====
-- db/sqlserver/schema and the SQL texts of apps/api/src: what the statements do to the tables under
-- the row-level security policy, and what a driver that sends them is relied on to do.
pub mod Schema
pub mod Policy
pub mod Run
pub mod Each
pub mod Rows
pub mod Execute
pub mod Driver
pub mod Effects
pub mod Isolation
pub mod Writes
pub mod Identity
pub mod Integrity
pub mod Authority
pub mod Recorded
