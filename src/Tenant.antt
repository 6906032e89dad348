-- ===== src/Tenant.antt =====
-- apps/api/src/tenant: the request's context and the middleware that attaches it.
pub mod Context
pub mod Middleware
