-- ===== src/Core.antt =====
-- The application's errors (app/core/exceptions.py) and the request hash
-- (app/core/request_hash.py).
pub mod Error
pub mod Outcome
pub mod RequestHash
