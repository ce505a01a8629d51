-- ===== src/Chat/Store/Messages.antt =====
-- backend/crates/chat/src/repository.rs: storing a Message once.
use jiuyue.Base.{
  ltb, if◌then◌else◌, ℕ, ◌+◌, String, Bool, true, false, not, ◌&&◌, Option, none, some, List, [],
  ◌∷◌, ◌++◌, text_key, nat_key,
}
use jiuyue.Base.Map.{Map, lookup, insert}
use jiuyue.Base.Int.{ℤ}
use jiuyue.Chat.Errors.{conversation_not_found, Result, ok, err}
use jiuyue.Chat.Store.{MemberKey, member_key, Member, MessageRow, NewMessageRow, Db, same}

abbrev pub has_client_id : String → String → MessageRow → Bool
has_client_id sender client m = same m.sender_id sender && same m.client_msg_id client

-- `SELECT_MESSAGE_BY_CLIENT_ID`: the row under an idempotency key.
unfoldable pub find_message_by_client_id : List MessageRow → String → String → Option MessageRow
find_message_by_client_id [] sender client = none
find_message_by_client_id (m ∷ ms) sender client =
    if has_client_id sender client m then some m else find_message_by_client_id ms sender client

-- `INCREMENT_UNREAD`: every recipient who has not read that far.
abbrev pub bump : String → String → ℕ → MemberKey → Member → Member
bump conversation_id sender seq k m =
    if same conversation_id k.conversation_id
      && (not (same sender k.user_id) && ltb m.read_marker_seq seq)
    then record m { unread_count = m.unread_count + 1 }
    else m

unfoldable pub increment_unread : Map MemberKey Member → String → String → ℕ → Map MemberKey Member
increment_unread [] conversation_id sender seq = []
increment_unread ((k, m) ∷ ms) conversation_id sender seq =
    (k, bump conversation_id sender seq k m) ∷ increment_unread ms conversation_id sender seq

abbrev pub row_of : NewMessageRow → ℕ → ℤ → MessageRow
row_of m seq now = record {
  id = m.id;
  conversation_id = m.conversation_id;
  seq = seq;
  sender_id = m.sender_id;
  client_msg_id = m.client_msg_id;
  body = m.body;
  created_at_ms = now;
}

-- From `ALLOCATE_SEQ` on. That statement locks the row of the Conversation, so what follows sees
-- one state. A key that is taken by then rolls the allocation back and reads the Message again.
unfoldable pub allocate_and_insert : Db → NewMessageRow → ℤ → Db × Result (MessageRow × Bool)
unfolding increment_unread find_message_by_client_id
allocate_and_insert db message now = elim (lookup message.conversation_id db.conversations) [
  | none ↦ (db, err conversation_not_found)
  | some c ↦
      let seq = c.next_seq + 1 in
      let row = row_of message seq now in
      elim (find_message_by_client_id db.messages message.sender_id message.client_msg_id) [
        | none ↦ (
          record db {
            conversations =
                insert message.conversation_id (record c { next_seq = seq }) db.conversations;
            members = increment_unread db.members message.conversation_id message.sender_id seq;
            messages = db.messages ++ row ∷ [];
          },
          ok (row, true),
        )
        | some existing ↦ (db, ok (existing, false))
      ]
]

-- `ChatRepository::insert_message_idempotent`. `others` is what other transactions commit between
-- the first look at the key and the lock.
unfoldable pub insert_message_idempotent :
    (Db → Db) → Db → NewMessageRow → ℤ → Db × Result (MessageRow × Bool)
unfolding allocate_and_insert find_message_by_client_id
insert_message_idempotent others db message now =
    elim (find_message_by_client_id db.messages message.sender_id message.client_msg_id) [
      | some existing ↦ (db, ok (existing, false))
      | none ↦ allocate_and_insert (others db) message now
    ]
