-- ===== src/Security.antt =====
-- Protection of the login of apps/api/src/infra/security.
pub mod Fallback
pub mod AuthDefense
pub mod RateLimit
pub mod PreAuth
pub mod Network
mod Examples
