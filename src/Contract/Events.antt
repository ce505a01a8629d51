-- ===== src/Contract/Events.antt =====
-- backend/crates/contract/src/events.rs, presence.rs and envelope.rs: what the server and the
-- client send, and the envelope that carries the connection's sequence.
use jiuyue.Base.{String, Option, ℕ}
use jiuyue.Base.Int.{ℤ}
use jiuyue.Contract.Group.{MembershipChanged}
use jiuyue.Contract.Chat.{
  SendMessage, MessageAck, NewMessage, MessageRejected, ConversationCreated, MarkRead, ReadMarker,
  ReadReceipt, Resume, Resync, SyncCursor, SyncState,
}

pub record Ping : Type 0 where
  pub seq : ℕ
  pub time_ms : ℤ
  pub connection_id : Option ℕ

pub data TypingState : Type 0 where
  started stopped : TypingState

pub TypingState-discrete : Discrete TypingState
TypingState-discrete = hlevel

pub record TypingSignal : Type 0 where
  pub conversation_id : String
  pub state : TypingState

pub record Typing : Type 0 where
  pub conversation_id : String
  pub user_id : String
  pub state : TypingState

pub data PresenceStatus : Type 0 where
  online offline : PresenceStatus

pub record Presence : Type 0 where
  pub user_id : String
  pub status : PresenceStatus
  pub last_seen_ms : Option ℤ

pub data ServerEvent : Type 0 where
  ping : Ping → ServerEvent
  message_ack : MessageAck → ServerEvent
  new_message : NewMessage → ServerEvent
  message_rejected : MessageRejected → ServerEvent
  conversation_created : ConversationCreated → ServerEvent
  membership_changed : MembershipChanged → ServerEvent
  resync : Resync → ServerEvent
  sync_state : SyncState → ServerEvent
  read_marker : ReadMarker → ServerEvent
  read_receipt : ReadReceipt → ServerEvent
  presence : Presence → ServerEvent
  typing : Typing → ServerEvent

pub data ClientEvent : Type 0 where
  ping : Ping → ClientEvent
  send_message : SendMessage → ClientEvent
  resume : Resume → ClientEvent
  sync_cursor : SyncCursor → ClientEvent
  mark_read : MarkRead → ClientEvent
  typing : TypingSignal → ClientEvent

abbrev pub protocol_version : ℕ
protocol_version = 1

pub record ServerEnvelope : Type 0 where
  pub version : ℕ
  pub sequence : ℕ
  pub timestamp_ms : ℤ
  pub event : ServerEvent

-- `ServerEnvelope::new`.
unfoldable pub envelope : ℕ → ℤ → ServerEvent → ServerEnvelope
envelope sequence timestamp_ms event = record {
  version = protocol_version;
  sequence = sequence;
  timestamp_ms = timestamp_ms;
  event = event;
}
