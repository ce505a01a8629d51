-- ===== src/Chat/Messages.antt =====
-- backend/crates/chat/src/service.rs: sending, reading and the audience of a Conversation, over the
-- statements of Chat/Store.
pub mod Sends
pub mod Listing
pub mod Tests
use jiuyue.Base.{
  leb, ◌==◌, length, select, all, is_empty, ℕ, ◌-◌, ◌/◌, String, Bool, true, false, not, ◌&&◌, ◌||◌,
  Option, none, some, List, text_key, nat_key,
}
-- none
use jiuyue.Base.Int.{ℤ, pos, leb_ℤ}
use Prim.Native.String.{len}
use jiuyue.Contract.{
  SendMessage, MarkRead, MessageView, FieldErrorCode, required, too_long, invalid_format,
}
use jiuyue.Chat.Errors.{
  ChatError, conversation_not_found, not_a_participant, internal, Result, ok, err, require, ok_or,
  invalid, ◌>>=◌, ◌>>◌,
}
use jiuyue.Chat.Text.{is_whitespace}
use jiuyue.Chat.Ident.{is_ulid, codes}
use jiuyue.Chat.Store
use jiuyue.Chat.Store.{MessageRow, NewMessageRow, Db, membership, participants}
use jiuyue.Chat.Store.Messages.{insert_message_idempotent}
use jiuyue.Chat.Store.Reads
use jiuyue.Chat.Store.Reads.{ReadStateRow}

abbrev pub max_message_body_chars : ℕ
max_message_body_chars = 4000

abbrev pub max_client_msg_id_bytes : ℕ
max_client_msg_id_bytes = 128

-- `text.trim().is_empty()`.
unfoldable pub is_blank : String → Bool
is_blank text = all is_whitespace (codes text)

unfoldable pub validate_send : SendMessage → Result (Unit {0})
unfolding is_ulid is_blank
validate_send send = do
  require (is_ulid send.conversation_id) (invalid "conversation_id" invalid_format "会话标识不合法")
  require (not (len send.client_msg_id == 0)) (invalid "client_msg_id" required "缺少客户端消息标识")
  require (leb (len send.client_msg_id) max_client_msg_id_bytes)
      (invalid "client_msg_id" too_long "客户端消息标识过长")
  require (not (is_blank send.body)) (invalid "body" required "消息内容不能为空")
  require (leb (length (codes send.body)) max_message_body_chars)
      (invalid "body" too_long "消息内容最多 4000 个字符")

abbrev pub belonging : Option Bool → Result (Unit {0})
belonging none = err conversation_not_found
belonging (some true) = ok tt
belonging (some false) = err not_a_participant

unfoldable pub require_participant : Db → String → String → Result (Unit {0})
unfolding membership
require_participant db conversation_id user_id = belonging (membership db conversation_id user_id)

unfoldable pub message_view : MessageRow → MessageView
message_view row = record {
  id = row.id;
  conversation_id = row.conversation_id;
  seq = pos row.seq;
  sender_id = row.sender_id;
  client_msg_id = row.client_msg_id;
  body = row.body;
  created_at_ms = row.created_at_ms;
}

pub record SentMessage : Type 0 where
  pub message : MessageView
  pub participants : List String
  pub created : Bool

-- The part of `send_message` behind its two checks. `id` is the new ULID and `now` the time.
unfoldable pub store_and_address :
    (Db → Db) → String → ℤ → Db → String → SendMessage → Db × Result SentMessage
unfolding insert_message_idempotent message_view participants
store_and_address others id now db sender_id send =
    let (db', stored) =
      insert_message_idempotent others db
        (record {
          id = id;
          conversation_id = send.conversation_id;
          sender_id = sender_id;
          client_msg_id = send.client_msg_id;
          body = send.body;
        })
        now in
    (
      db',
      do
        (row, created) ← stored
        ok (record {
          message = message_view row;
          participants = Store.participants db' row.conversation_id;
          created = created;
        }),
    )

-- `ChatService::send_message`.
unfoldable pub send_message :
    (Db → Db) → String → ℤ → Db → String → SendMessage → Db × Result SentMessage
unfolding validate_send require_participant store_and_address
send_message others id now db sender_id send =
    elim (validate_send send >> require_participant db send.conversation_id sender_id) [
      | err e ↦ (db, err e)
      | ok _ ↦ store_and_address others id now db sender_id send
    ]

pub record ReadStateUpdate : Type 0 where
  pub conversation_id : String
  pub user_id : String
  pub read_marker_seq : ℕ
  pub read_receipt_seq : ℕ
  pub unread_count : ℕ
  pub others : List String

-- `filter(|participant| participant != user_id)`.
abbrev pub others_than : String → List String → List String
others_than user_id us = select (λ u. not (Store.same u user_id)) us

unfoldable pub validate_mark : MarkRead → Result (Unit {0})
unfolding is_ulid
validate_mark mark = do
  require (is_ulid mark.conversation_id) conversation_not_found
  require (leb_ℤ (pos 0) mark.last_read_seq) (invalid "last_read_seq" invalid_format "已读位置不合法")

-- `ChatService::mark_read`.
unfoldable pub mark_read : Db → String → MarkRead → Db × Result ReadStateUpdate
unfolding validate_mark require_participant Reads.mark_read participants
mark_read db user_id mark =
    elim (validate_mark mark >> require_participant db mark.conversation_id user_id) [
      | err e ↦ (db, err e)
      | ok _ ↦
          let (db', answer) = Reads.mark_read db mark.conversation_id user_id mark.last_read_seq in
          (
            db',
            do
              state ← ok_or answer internal
              ok (record {
                conversation_id = mark.conversation_id;
                user_id = user_id;
                read_marker_seq = state.read_marker_seq;
                read_receipt_seq = state.read_receipt_seq;
                unread_count = state.unread_count;
                others = others_than user_id (participants db' mark.conversation_id);
              }),
          )
    ]

-- `ChatService::conversation_audience`.
unfoldable pub conversation_audience : Db → String → String → Result (List String)
unfolding is_ulid require_participant participants
conversation_audience db user_id conversation_id = do
  require (is_ulid conversation_id) conversation_not_found
  require_participant db conversation_id user_id
  ok (others_than user_id (participants db conversation_id))
