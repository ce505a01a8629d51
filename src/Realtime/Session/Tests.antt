-- ===== src/Realtime/Session/Tests.antt =====
-- A session of bob, in a Conversation with alice, and carol outside.
use jiuyue.Base.{
  text_discrete, ltb, if◌then◌else◌, ◌+◌, String, ◌≡◌, refl, true, false, none, some, List, [], ◌∷◌,
  ◌++◌, arith, ℕ_discrete,
}
use mathlib.Core.Option
use jiuyue.Base.Map.{lookup, insert}
use jiuyue.Base.Int.{pos}
use jiuyue.Contract.{ClientEvent, ServerEvent, ServerEnvelope, SyncCursor, SendMessage, MarkRead}
use jiuyue.Chat.Ident.{is_ulid, is_crockford}
use jiuyue.Chat.Store.{member_key, MemberKey-discrete, Member, Db, key, membership, participants}
use jiuyue.Chat.Store.Messages.{
  find_message_by_client_id, increment_unread, allocate_and_insert, insert_message_idempotent,
}
use jiuyue.Chat.Store.Reads
use jiuyue.Chat.Store.Reads.{unread_after, read_state}
use jiuyue.Chat.Messages
use jiuyue.Chat.Messages.{
  ReadStateUpdate, validate_send, require_participant, store_and_address, message_view,
  validate_mark, is_blank, conversation_audience,
}
use jiuyue.Realtime.Registry
use jiuyue.Realtime.Registry.{Channel, TrySend, accepted, ConnectionRegistry, register, deliver}
use jiuyue.Realtime.Registry.Delivery.{queue}
use jiuyue.Realtime.Typing
use jiuyue.Realtime.Cursor
use jiuyue.Realtime.Cursor.{CursorStore}
use jiuyue.Realtime.Liveness.{is_expired}
use jiuyue.Realtime.Writer
use jiuyue.Realtime.Writer.{Outbound}
use jiuyue.Realtime.Session.{
  Given, Hub, Session, fan_out, deliver_message, tell_read, mark_read, handle_frame,
}
use jiuyue.Realtime.Session.Doors.{deliver_message-participants}
use jiuyue.Realtime.Session.Beats.{is_beat, handle_frame-is_expired}

program : Unit {0}
unfolding Registry.new register deliver lookup insert text_discrete ℕ_discrete MemberKey-discrete
    membership participants find_message_by_client_id increment_unread allocate_and_insert
    insert_message_idempotent Reads.mark_read unread_after read_state validate_send
    require_participant store_and_address message_view Messages.send_message Messages.mark_read
    validate_mark is_blank conversation_audience is_ulid is_crockford fan_out deliver_message
    tell_read mark_read handle_frame is_expired
program = tt

-- A channel that always has room, a queue to the socket that is never closed, a store of positions.
abbrev roomy : Channel
roomy = record {
  Queue = List ServerEvent;
  contents = λ q. q;
  try_send = λ q e. (q ++ e ∷ [], accepted);
  contents-accepted = λ q e h. refl;
  contents-refused = λ q e h. absurd (h refl);
}

open_anyway : (t : List ServerEnvelope) (e : ServerEnvelope) → false ≡ true → t ++ e ∷ [] ≡ t
open_anyway t e h = ground (arith, h)

abbrev tape : Outbound
tape = record {
  Tx = List ServerEnvelope;
  sent = λ t. t;
  is_closed = λ t. false;
  send = λ t e. t ++ e ∷ [];
  sent-send = λ t e h. refl;
  sent-send_closed = open_anyway;
}

abbrev saving : CursorStore
saving = record { Db = List SyncCursor; save = λ db b. (db ++ b, true) }

abbrev room : String
room = "01ARZ3NDEKTSV4RRFFQ69G5FAV"

abbrev joiner : Member
joiner = record {
  role = "member";
  joined_at_ms = pos 0;
  read_marker_seq = 0;
  read_receipt_seq = 0;
  unread_count = 0;
}

abbrev tables : Db
tables = record {
  users = [];
  conversations =
      (
        room,
        record {
          kind = "direct";
          title = none;
          announcement = none;
          created_at_ms = pos 0;
          next_seq = 0;
        },
      )
      ∷ [];
  members = (key room "alice", joiner) ∷ (key room "bob", joiner) ∷ [];
  messages = [];
}

abbrev online : ConnectionRegistry (List ServerEvent)
online = (register (register (register Registry.new "alice" []).0 "bob" []).0 "carol" []).0

abbrev hub : Hub roomy
hub = record { registry = online; typing = Typing.new Typing.production; chat = tables }

abbrev given : Given
given = record {
  others = λ db. db;
  id = "id1";
  now = pos 7;
  instant = 100;
  clock = Writer.ok (pos 7);
}

abbrev hello : SendMessage
hello = record { conversation_id = room; client_msg_id = "m1"; body = "hello" }

abbrev sent : Hub roomy
sent = (deliver_message roomy hub given "alice" hello).0

deliver_message-participants_example :
    queue roomy sent.registry "carol" 2 ≡ queue roomy online "carol" 2
unfolding program
deliver_message-participants_example =
    deliver_message-participants roomy hub given "alice" hello "carol" 2 refl

abbrev mark : MarkRead
mark = record { conversation_id = room; last_read_seq = pos 1 }

abbrev update : ReadStateUpdate
update = record {
  conversation_id = room;
  user_id = "bob";
  read_marker_seq = 1;
  read_receipt_seq = 1;
  unread_count = 0;
  others = "alice" ∷ [];
}

abbrev session : Session roomy tape saving
session = record {
  user_id = "bob";
  writer = Writer.new tape [] 8 1;
  cursors = Cursor.new;
  liveness = record { last_beat = some 10 };
}

handle_frame-is_expired_example :
    is_expired
      (handle_frame roomy tape saving session hub [] given (
        some (
          ClientEvent.ping (record { seq = 1; time_ms = pos 7; connection_id = none })))).0.liveness
      50
      140
    ≡ (if is_beat
          (some (ClientEvent.ping (record { seq = 1; time_ms = pos 7; connection_id = none })))
        then ltb (100 + 50) 140
        else is_expired session.liveness 50 140)
handle_frame-is_expired_example =
    handle_frame-is_expired roomy tape saving session hub [] given
      (some (ClientEvent.ping (record { seq = 1; time_ms = pos 7; connection_id = none }))) 50 140
      (omega arith)
