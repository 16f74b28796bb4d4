-- ===== src/Auth/Lockout.antt =====
-- The lock of an account, and that of a phone's code, over histories of requests
-- (backend/app/services/auth_service.py): both are rolled back with the request that sets them.
pub mod Base
mod Logins
mod Social
mod Sessions
mod Recovery
pub mod Runs
