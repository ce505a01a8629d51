-- ===== src/Chat.antt =====
-- backend/crates/chat: Conversations, Messages, groups and read positions, over the tables that the
-- repository's SQL reads and writes.
pub mod Errors
pub mod Ident
pub mod Text
pub mod Permission
pub mod SyncCursors
pub mod Store
pub mod Messages
pub mod Groups
