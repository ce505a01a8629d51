-- ===== src/Chat/Messages/Tests.antt =====
-- Two Participants and an outsider in one Conversation.
use jiuyue.Base.{
  text_discrete, ◌≤◌, String, ◌≡◌, refl, ◌≢◌, true, false, some, [], ◌∷◌, ◌++◌, arith, text_key,
  nat_key, none,
}
use jiuyue.Base.Map.{lookup, insert}
use jiuyue.Base.Int.{pos}
use jiuyue.Contract.{SendMessage}
use jiuyue.Chat.Errors.{ChatError, ok, err}
use jiuyue.Chat.Ident.{is_ulid, is_crockford}
use jiuyue.Chat.Store.{
  MemberKey, member_key, MemberKey-discrete, Member, MessageRow, NewMessageRow, Db, key, membership,
  participants,
}
use jiuyue.Chat.Store.Messages.{
  find_message_by_client_id, increment_unread, allocate_and_insert, insert_message_idempotent,
}
use jiuyue.Chat.Store.Reads
use jiuyue.Chat.Store.Reads.{ReadStateRow, unread_after, read_state}
use jiuyue.Chat.Store.Numbering.{IsValid, insert_message_idempotent-IsValid}
use jiuyue.Chat.Store.Unread.{IsSettled, insert_message_idempotent-IsSettled, mark_read-IsSettled}
use jiuyue.Chat.Messages.{
  SentMessage, validate_send, require_participant, store_and_address, message_view, send_message,
  mark_read, validate_mark, is_blank, conversation_audience,
}
use jiuyue.Chat.Messages.Sends.{send_message_twice, send_message_refused}
use jiuyue.Chat.Ident.{page_size}
use jiuyue.Chat.Store.Pages
use jiuyue.Chat.Store.Pages.{
  insert_by_seq, order_by_seq, list_message_page, list_message_page_after,
}
use jiuyue.Chat.Store.Paging.{seqs}
use jiuyue.Chat.Store.History.{list_message_page-range, list_message_page_after-range}
use jiuyue.Chat.Messages.Listing.{list_messages, read_page}

program : Unit {0}
unfolding page_size insert_by_seq order_by_seq list_message_page list_message_page_after
    Pages.list_receipts read_page list_messages lookup insert text_discrete MemberKey-discrete
    membership participants find_message_by_client_id increment_unread allocate_and_insert
    insert_message_idempotent Reads.mark_read unread_after read_state validate_send
    require_participant store_and_address message_view send_message mark_read validate_mark is_blank
    conversation_audience is_ulid is_crockford
program = tt

abbrev room : String
room = "01ARZ3NDEKTSV4RRFFQ69G5FAV"

abbrev joiner : Member
joiner = record {
  role = "member";
  joined_at_ms = pos 0;
  read_marker_seq = 0;
  read_receipt_seq = 0;
  unread_count = 0;
}

abbrev empty_room : Db
empty_room = record {
  users = [];
  conversations =
      (
        room,
        record {
          kind = "direct";
          title = none;
          announcement = none;
          created_at_ms = pos 0;
          next_seq = 0;
        },
      )
      ∷ [];
  members = (key room "alice", joiner) ∷ (key room "bob", joiner) ∷ [];
  messages = [];
}

abbrev hello : SendMessage
hello = record { conversation_id = room; client_msg_id = "m1"; body = "hello" }

abbrev hello_row : NewMessageRow
hello_row = record {
  id = "id1";
  conversation_id = room;
  sender_id = "alice";
  client_msg_id = "m1";
  body = "hello";
}

abbrev stored_hello : MessageRow
stored_hello = record {
  id = "id1";
  conversation_id = room;
  seq = 1;
  sender_id = "alice";
  client_msg_id = "m1";
  body = "hello";
  created_at_ms = pos 7;
}

abbrev quiet : Db → Db
quiet db = db

abbrev after_hello : Db
after_hello = (insert_message_idempotent quiet empty_room hello_row (pos 7)).0

only_the_recipient_has_it_unread :
    (read_state after_hello room "alice"
      ≡ some (record { read_marker_seq = 0; read_receipt_seq = 0; unread_count = 0 }))
    × (read_state after_hello room "bob"
        ≡ some (record { read_marker_seq = 0; read_receipt_seq = 0; unread_count = 1 }))
    × ((Reads.mark_read after_hello room "bob" (pos 9)).1
        ≡ some (record { read_marker_seq = 1; read_receipt_seq = 1; unread_count = 0 }))
unfolding program
only_the_recipient_has_it_unread = (refl, refl, refl)

-- A member who joins behind Messages starts with a count of zero, and reading one of two Messages
-- raises it to one.
abbrev two_messages : Db
two_messages =
    (insert_message_idempotent quiet after_hello (record hello_row { client_msg_id = "m2" })
      (pos 8)).0

abbrev joined_late : Db
joined_late = record two_messages {
  members = two_messages.members ++ (key room "carol", joiner) ∷ [];
}

reading_raises_the_count_of_a_late_joiner :
    (read_state joined_late room "carol"
      ≡ some (record { read_marker_seq = 0; read_receipt_seq = 0; unread_count = 0 }))
    × ((Reads.mark_read joined_late room "carol" (pos 1)).1
        ≡ some (record { read_marker_seq = 1; read_receipt_seq = 1; unread_count = 1 }))
unfolding program
reading_raises_the_count_of_a_late_joiner = (refl, refl)

empty_room-IsValid : IsValid empty_room
unfolding lookup
empty_room-IsValid = record { numbered = λ id. ground arith; keyed = tt }

insert_message_idempotent-IsValid_example : IsValid after_hello
insert_message_idempotent-IsValid_example =
    insert_message_idempotent-IsValid quiet empty_room hello_row (pos 7) empty_room-IsValid
      empty_room-IsValid

insert_message_idempotent-IsSettled_example : IsSettled after_hello (key room "bob")
unfolding program
insert_message_idempotent-IsSettled_example =
    insert_message_idempotent-IsSettled quiet empty_room hello_row (pos 7) (key room "bob") refl
      refl

mark_read-IsSettled_example :
    IsSettled (Reads.mark_read after_hello room "bob" (pos 9)).0 (key room "bob")
    × (state : ReadStateRow) × ((Reads.mark_read after_hello room "bob" (pos 9)).1 ≡ some state)
    × (0 ≤ state.read_marker_seq)
    × (1 ≤ state.read_marker_seq)
    × (state.read_marker_seq ≤ 1)
    × ((k : MemberKey)
        → key room "bob" ≢ k
        → lookup k (Reads.mark_read after_hello room "bob" (pos 9)).0.members
          ≡ lookup k after_hello.members)
unfolding program
mark_read-IsSettled_example =
    mark_read-IsSettled after_hello room "bob" (pos 9)
      (record {
        kind = "direct";
        title = none;
        announcement = none;
        created_at_ms = pos 0;
        next_seq = 1;
      })
      (record joiner { unread_count = 1 }) refl refl

abbrev caught_up : ReadStateRow
caught_up = record { read_marker_seq = 1; read_receipt_seq = 1; unread_count = 0 }

abbrev sent_hello : SentMessage
sent_hello = record {
  message = message_view stored_hello;
  participants = "alice" ∷ "bob" ∷ [];
  created = true;
}

send_message_twice_example :
    send_message quiet "id2"
      (pos 9)
      (send_message quiet "id1" (pos 7) empty_room "alice" hello).0
      "alice"
      hello
    ≡ (
      (send_message quiet "id1" (pos 7) empty_room "alice" hello).0,
      ok (record sent_hello { created = false }),
    )
unfolding program
send_message_twice_example =
    send_message_twice quiet quiet "id1" "id2" "alice" (pos 7) (pos 9) empty_room hello sent_hello
      refl refl

send_message_refused_example :
    (e : ChatError) × (send_message quiet "id1" (pos 7) empty_room "mallory" hello
      ≡ (empty_room, err e))
unfolding program
send_message_refused_example =
    send_message_refused quiet "id1" "mallory" (pos 7) empty_room hello (λ h. cc)

two_messages-IsValid : IsValid two_messages
two_messages-IsValid =
    insert_message_idempotent-IsValid quiet after_hello (record hello_row { client_msg_id = "m2" })
      (pos 8) insert_message_idempotent-IsValid_example insert_message_idempotent-IsValid_example

list_message_page-range_example :
    (seqs (list_message_page two_messages room none 1).0 ≡ 2 ∷ [])
    × ((list_message_page two_messages room none 1).1 ≡ true)
unfolding program
list_message_page-range_example =
    list_message_page-range two_messages room none 1 two_messages-IsValid

list_message_page_after-range_example :
    (seqs (list_message_page_after two_messages room (pos 1) 5).0 ≡ 2 ∷ [])
    × ((list_message_page_after two_messages room (pos 1) 5).1 ≡ false)
unfolding program
list_message_page_after-range_example =
    list_message_page_after-range two_messages room (pos 1) 5 two_messages-IsValid

-- The cursor of the newest page leads to the one before it.
pages_follow :
    (list_messages
        (λ rs. rs)
        two_messages
        "bob"
        room
        (record { before = none; after = none; limit = some (pos 1) })
      ≡ ok (record {
        messages =
            message_view
              (record stored_hello { seq = 2; client_msg_id = "m2"; created_at_ms = pos 8 })
            ∷ [];
        next_before = some (pos 2);
        next_after = none;
        has_more = true;
        read_receipts =
            record { conversation_id = room; reader_id = "alice"; last_read_seq = pos 0 } ∷ [];
      }))
    × (list_messages
          (λ rs. rs)
          two_messages
          "bob"
          room
          (record { before = some (pos 2); after = none; limit = some (pos 1) })
        ≡ ok (record {
          messages = message_view stored_hello ∷ [];
          next_before = none;
          next_after = none;
          has_more = false;
          read_receipts =
              record { conversation_id = room; reader_id = "alice"; last_read_seq = pos 0 } ∷ [];
        }))
unfolding program
pages_follow = (refl, refl)
