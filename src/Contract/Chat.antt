-- ===== src/Contract/Chat.antt =====
-- backend/crates/contract/src/chat.rs, read.rs and sync.rs: Conversations, Messages, read
-- positions and the resume handshake.
use jiuyue.Base.{String, Option, List, ℕ}
use jiuyue.Base.Int.{ℤ}
use jiuyue.Contract.Errors.{ErrorCode}
use jiuyue.Contract.Group.{GroupSummary}

pub data ConversationKind : Type 0 where
  direct group : ConversationKind

pub record PeerSummary : Type 0 where
  pub id : String
  pub username : String
  pub display_name : String
  pub avatar_url : Option String

pub record ConversationSummary : Type 0 where
  pub id : String
  pub kind : ConversationKind
  pub peer : Option PeerSummary
  pub group : Option GroupSummary
  pub unread_count : ℤ
  pub created_at_ms : ℤ

pub record MessageView : Type 0 where
  pub id : String
  pub conversation_id : String
  pub seq : ℤ
  pub sender_id : String
  pub client_msg_id : String
  pub body : String
  pub created_at_ms : ℤ

pub record SendMessage : Type 0 where
  pub conversation_id : String
  pub client_msg_id : String
  pub body : String

pub record MessageAck : Type 0 where
  pub client_msg_id : String
  pub message : MessageView

pub record NewMessage : Type 0 where
  pub message : MessageView

pub record MessageRejected : Type 0 where
  pub client_msg_id : String
  pub code : ErrorCode
  pub message : String

pub record ConversationCreated : Type 0 where
  pub conversation : ConversationSummary

pub record MarkRead : Type 0 where
  pub conversation_id : String
  pub last_read_seq : ℤ

pub record ReadMarker : Type 0 where
  pub conversation_id : String
  pub last_read_seq : ℤ
  pub unread_count : ℤ

pub record ReadReceipt : Type 0 where
  pub conversation_id : String
  pub reader_id : String
  pub last_read_seq : ℤ

pub record Resume : Type 0 where
  pub last_seq : ℕ
  pub connection_id : Option ℕ

pub data ResyncReason : Type 0 where
  fresh replayed unavailable : ResyncReason

pub record Resync : Type 0 where
  pub reason : ResyncReason
  pub replayed : ℕ

pub record SyncCursor : Type 0 where
  pub conversation_id : String
  pub last_seq : ℤ

pub record SyncState : Type 0 where
  pub cursors : List SyncCursor
