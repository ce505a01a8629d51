-- ===== src/Chat/Store/Idempotent.antt =====
-- Retries of a send: the idempotency key of (sender, client_msg_id).
use jiuyue.Base.{
  Option-cases, ◌+◌, ◌≡◌, refl, inl, inr, Bool, false, some, arith, text_key, nat_key,
}
use jiuyue.Base.Map.{lookup}
use jiuyue.Base.Int.{ℤ}
use jiuyue.Chat.Errors.{ok}
use jiuyue.Chat.Store.{member_key, MessageRow, NewMessageRow, Db}
use jiuyue.Chat.Store.Messages.{
  find_message_by_client_id, row_of, allocate_and_insert, insert_message_idempotent,
}
use jiuyue.Chat.Store.Numbering.{find-append}

stored :
    (db : Db) (m : NewMessageRow) (now : ℤ) (row : MessageRow) (created : Bool)
    → (allocate_and_insert db m now).1 ≡ ok (row, created)
    → find_message_by_client_id
        (allocate_and_insert db m now).0.messages
        m.sender_id
        m.client_msg_id
      ≡ some row
unfolding allocate_and_insert
stored db m now row created h = elim (Option-cases (lookup m.conversation_id db.conversations)) [
  | inl e ↦ absurd (ground (arith, h))
  | inr (c, e) ↦ ground (
    arith,
    h,
    find-append db.messages (row_of m (c.next_seq + 1) now) m.sender_id m.client_msg_id,
  )
]

stored_once :
    (others : Db → Db) (db : Db) (m : NewMessageRow) (now : ℤ) (row : MessageRow) (created : Bool)
    → (insert_message_idempotent others db m now).1 ≡ ok (row, created)
    → find_message_by_client_id
        (insert_message_idempotent others db m now).0.messages
        m.sender_id
        m.client_msg_id
      ≡ some row
unfolding insert_message_idempotent
stored_once others db m now row created h =
    elim (Option-cases (find_message_by_client_id db.messages m.sender_id m.client_msg_id)) [
      | inl free ↦ ground (arith, h, stored (others db) m now row created)
      | inr (found, taken) ↦ ground (arith, h)
    ]

found_again :
    (others : Db → Db) (db : Db) (again : NewMessageRow) (later : ℤ) (row : MessageRow)
    → find_message_by_client_id db.messages again.sender_id again.client_msg_id ≡ some row
    → insert_message_idempotent others db again later ≡ (db, ok (row, false))
unfolding insert_message_idempotent
found_again others db again later row e = rw (e, insert_message_idempotent) refl

-- A send that succeeded may be sent again, with any id, Conversation and text: as long as its key
-- is the same, it is answered with the Message of the first and changes nothing.
pub insert_message_idempotent_twice :
    (others others' : Db → Db) (db : Db) (m again : NewMessageRow) (now later : ℤ)
    (row : MessageRow) (created : Bool)
    → (insert_message_idempotent others db m now).1 ≡ ok (row, created)
    → again.sender_id ≡ m.sender_id
    → again.client_msg_id ≡ m.client_msg_id
    → insert_message_idempotent others' (insert_message_idempotent others db m now).0 again later
      ≡ ((insert_message_idempotent others db m now).0, ok (row, false))
insert_message_idempotent_twice others others' db m again now later row created h s c =
    found_again others' (insert_message_idempotent others db m now).0 again later row
      (rw (s, c) (stored_once others db m now row created h))
