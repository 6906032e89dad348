-- ===== src/Smoke.antt =====
-- scripts: the two smoke tests of the row-level security, against a server that is there (Local) and
-- against a container of their own (Docker).
pub mod Names
pub mod Queries
pub mod Sqlcmd
pub mod Local
pub mod Docker
