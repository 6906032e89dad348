-- ===== src/Sample.antt =====
-- A small server that meets what the theorems ask of a driver, for the tests and examples.
pub mod Backend
pub mod Package
pub mod Signing
