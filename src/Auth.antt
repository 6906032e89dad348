-- ===== src/Auth.antt =====
-- apps/api/src/auth
pub mod Credentials
pub mod Bootstrap
pub mod Jose
pub mod Token
pub mod Keys
pub mod App
pub mod Hardened
pub mod Login
