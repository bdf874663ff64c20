-- ===== src/Auth.antt =====
-- Sessions and passwords: apps/api/src/modules/auth.
pub mod Model
pub mod Login
pub mod Refresh
pub mod Bootstrap
pub mod Reset
pub mod Trace
mod Examples
