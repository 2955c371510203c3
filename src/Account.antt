-- ===== src/Account.antt =====
-- frontend/src/features/auth: the token, the session and its end, and the account key of a login.
pub mod Session
pub mod Logout
pub mod Bootstrap
pub mod Recovery
mod Tests
