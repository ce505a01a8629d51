-- ===== src/Auth.antt =====
-- backend/crates/auth: the parts of signing in that decide something by themselves.
pub mod Limiter
pub mod Validation
pub mod Errors
pub mod Tokens
pub mod Store
pub mod Mail
pub mod Service
pub mod OAuth
