-- ===== src/Realtime.antt =====
-- backend/crates/realtime: live connections, their replay buffers, and the coalescing state that
-- stands in front of the database.
pub mod Registry
pub mod Replay
pub mod Writer
pub mod Typing
pub mod Cursor
pub mod Presence
pub mod Liveness
pub mod Session
