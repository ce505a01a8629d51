-- ===== src/Contract.antt =====
-- backend/crates/contract: the data that crosses the wire. Times in milliseconds, sequence
-- numbers of a Conversation and counts are `i64`; sequences of a connection are `u64`.
pub mod Requests
pub mod Accounts
pub mod Chat
pub mod Group
pub mod Errors
pub mod Events
unfoldable pub use Chat.*
unfoldable pub use Group.*
unfoldable pub use Errors.*
unfoldable pub use Events.*
unfoldable pub use Requests.*
unfoldable pub use Accounts.*
