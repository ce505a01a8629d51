-- ===== src/Realtime/Session.antt =====
-- backend/crates/realtime/src/session.rs, `Session`: what one connection makes of a client's frame,
-- over the hub that all of them share. A frame is handled as one step, except where `others` says
-- what other transactions commit while a Message is stored.
pub mod Doors
pub mod Beats
pub mod Tests
use jiuyue.Base.{
  if◌then◌else◌, is_empty, ℕ, String, Bool, true, false, Option, none, some, List, [], ◌∷◌,
}
use jiuyue.Base.Int.{ℤ, pos}
use jiuyue.Contract.{ClientEvent, ServerEvent, SendMessage, MarkRead, SyncCursor}
use jiuyue.Chat.Errors
use jiuyue.Chat.Errors.{ChatError}
use jiuyue.Chat.Store.{Db}
use jiuyue.Chat.Messages
use jiuyue.Chat.Messages.{SentMessage, ReadStateUpdate, conversation_audience}
use jiuyue.Realtime.Registry.{Channel, ConnectionRegistry, deliver}
use jiuyue.Realtime.Typing.{TypingDirectory, handle_typing, clear_typing}
use jiuyue.Realtime.Cursor.{CursorCheckpoint, CursorStore, report}
use jiuyue.Realtime.Liveness.{ConnectionLiveness, record_beat}
use jiuyue.Realtime.Writer
use jiuyue.Realtime.Writer.{Outbound, ConnectionWriter, send_event, resume}

-- What a frame is given: what other transactions commit, a new id, the time, the monotone clock and
-- the clock of the envelopes.
pub record Given : Type 0 where
  pub others : Db → Db
  pub id : String
  pub now : ℤ
  pub instant : ℕ
  pub clock : Writer.Result ℤ

-- Rejecting is answered with no audience.
abbrev pub audience_of : Errors.Result (List String) → Option (List String)
audience_of (Errors.err e) = none
audience_of (Errors.ok us) = some us

module _ (c : Channel) where
  open c use {Queue}

  -- The parts of `RealtimeHub` that a frame reaches.
  pub record Hub : Type 0 where
    pub registry : ConnectionRegistry Queue
    pub typing : TypingDirectory
    pub chat : Db

  -- A Message that this call wrote goes to every Participant.
  unfoldable pub fan_out : ConnectionRegistry Queue → SentMessage → ConnectionRegistry Queue
  fan_out r sent =
      if sent.created
      then (deliver c r sent.participants
          (ServerEvent.new_message (record { message = sent.message }))).0
      else r

  unfoldable pub deliver_message : Hub → Given → String → SendMessage → Hub × ServerEvent
  unfolding fan_out
  deliver_message hub given user_id send =
      let (chat, answer) =
        Messages.send_message given.others given.id given.now hub.chat user_id send in
      elim answer [
        | Errors.err error ↦ (
          record hub { chat = chat },
          ServerEvent.message_rejected (record {
            client_msg_id = send.client_msg_id;
            code = Errors.code error;
            message = Errors.message error;
          }),
        )
        | Errors.ok sent ↦
            let (typing, registry) =
              clear_typing c hub.typing (fan_out hub.registry sent) user_id send.conversation_id
                given.instant
                (audience_of (conversation_audience chat user_id send.conversation_id)) in
            (
              record { registry = registry; typing = typing; chat = chat },
              ServerEvent.message_ack
                  (record { client_msg_id = send.client_msg_id; message = sent.message }),
            )
      ]

  abbrev pub marker_of : ReadStateUpdate → ServerEvent
  marker_of update = ServerEvent.read_marker (record {
    conversation_id = update.conversation_id;
    last_read_seq = pos update.read_marker_seq;
    unread_count = pos update.unread_count;
  })

  abbrev pub receipt_of : ReadStateUpdate → ServerEvent
  receipt_of update = ServerEvent.read_receipt (record {
    conversation_id = update.conversation_id;
    reader_id = update.user_id;
    last_read_seq = pos update.read_receipt_seq;
  })

  -- The private position to the reader, the public one to the others.
  unfoldable pub tell_read : ConnectionRegistry Queue → ReadStateUpdate → ConnectionRegistry Queue
  tell_read r update =
      let told = (deliver c r (update.user_id ∷ []) (marker_of update)).0 in
      if is_empty update.others then told else (deliver c told update.others (receipt_of update)).0

  unfoldable pub mark_read : Hub → String → MarkRead → Hub
  unfolding tell_read
  mark_read hub user_id mark =
      let (chat, answer) = Messages.mark_read hub.chat user_id mark in
      elim answer [
        | Errors.err error ↦ record hub { chat = chat }
        | Errors.ok update ↦ record hub { chat = chat; registry = tell_read hub.registry update }
      ]

  module _ (o : Outbound) (s : CursorStore) where
    -- `device` is flattened to its User; its session is in the store of positions.
    pub record Session : Type 0 where
      pub user_id : String
      pub writer : ConnectionWriter o
      pub cursors : CursorCheckpoint
      pub liveness : ConnectionLiveness

    -- A frame that does not decode is ignored.
    unfoldable pub handle_frame :
        Session
        → Hub
        → s.Db
        → Given
        → Option ClientEvent
        → Session × Hub × s.Db × Writer.Result (Unit {0})
    unfolding deliver_message mark_read
    handle_frame session hub db given none = (session, hub, db, Writer.ok tt)
    handle_frame session hub db given (some (ClientEvent.ping ping)) = (
      record session { liveness = record_beat session.liveness given.instant },
      hub,
      db,
      Writer.ok tt,
    )
    handle_frame session hub db given (some (ClientEvent.send_message send)) =
        let (hub', reply) = deliver_message hub given session.user_id send in
        let (writer, outcome) = send_event o session.writer given.clock reply in
        (record session { writer = writer }, hub', db, outcome)
    handle_frame session hub db given (some (ClientEvent.resume claim)) =
        let (writer, outcome) = resume o session.writer given.clock claim in
        (record session { writer = writer }, hub, db, outcome)
    handle_frame session hub db given (some (ClientEvent.sync_cursor cursor)) =
        let (cursors, db') = report s session.cursors db cursor in
        (record session { cursors = cursors }, hub, db', Writer.ok tt)
    handle_frame session hub db given (some (ClientEvent.mark_read mark)) =
        (session, mark_read hub session.user_id mark, db, Writer.ok tt)
    handle_frame session hub db given (some (ClientEvent.typing signal)) =
        let (typing, registry) =
          handle_typing c hub.typing hub.registry session.user_id signal given.instant
            (audience_of (conversation_audience hub.chat session.user_id signal.conversation_id)) in
        (session, record hub { typing = typing; registry = registry }, db, Writer.ok tt)
