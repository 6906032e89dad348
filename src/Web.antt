-- ===== src/Web.antt =====
-- apps/web/src/app
pub mod Html
pub mod Session
pub mod Email
pub mod Shell
pub mod Login
pub mod Outlet
