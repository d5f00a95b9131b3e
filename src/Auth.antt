-- ===== src/Auth.antt =====
-- internal/auth: tenants and their keys.
pub mod Tenants
pub mod Cache
pub mod Bearer
