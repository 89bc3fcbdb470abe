-- ===== src/Web.antt =====
-- apps/web/lib/security: the rate limit of the API.
pub mod Limiter
