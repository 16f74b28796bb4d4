-- ===== src/Auth.antt =====
-- The accounts and the sessions of users (backend/app/services/auth_service.py and
-- backend/app/core/security.py).
pub mod Tokens
pub mod Login
pub mod Social
pub mod Sessions
pub mod Current
pub mod Recovery
pub mod Calls
pub mod Lockout
pub mod Ending
pub mod Grace
pub mod Names
pub mod Samples
mod Tests
