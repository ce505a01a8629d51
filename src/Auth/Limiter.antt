-- ===== src/Auth/Limiter.antt =====
-- backend/crates/auth/src/limiter.rs: failed sign-ins are counted for each source, answered with a
-- throttle and then with longer and longer lockouts, in a map of bounded size.
pub mod Policy
pub mod Attempt
pub mod Store
pub mod Bounds
pub mod Verdicts
pub mod Tests
