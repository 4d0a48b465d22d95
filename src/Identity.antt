-- ===== src/Identity.antt =====
-- Sessions and accounts: app/modules/identity.
pub mod RateLimit
pub mod Login
