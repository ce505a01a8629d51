-- ===== src/Realtime/Session/Doors.antt =====
-- Who hears what of a read, and of a Message.
use jiuyue.Base.{
  text_key, nat_key, Bool-cases, text_discrete, ℕ, String, ◌≡◌, ap, ◌∙◌, inl, inr, ite, true,
  Option, some, List, [], ◌∷◌, arith,
}
use mathlib.Core.Option
use jiuyue.Contract.{ServerEvent, SendMessage}
use jiuyue.Chat.Errors
use jiuyue.Chat.Groups.Created.{Result-cases}
use jiuyue.Chat.Store.{Db, participants}
use jiuyue.Chat.Store.Reads
use jiuyue.Chat.Messages
use jiuyue.Chat.Messages.{SentMessage, store_and_address, others_than, conversation_audience}
use jiuyue.Chat.Store.Messages.{insert_message_idempotent, allocate_and_insert}
use jiuyue.Base.Int.{ℤ}
use jiuyue.Realtime.Registry.{Channel, ConnectionRegistry, deliver}
use jiuyue.Realtime.Registry.Delivery.{times, queue, queue-deliver_absent}
use jiuyue.Realtime.Typing.{clear_typing}
use jiuyue.Realtime.Typing.Handle.{clear_typing-outside}
use jiuyue.Realtime.Session.{Given, audience_of, fan_out, deliver_message, Hub}

module _ (c : Channel) where
  open c use {Queue}

  times-others_than :
      (u user : String) (us : List String)
      → times c u (others_than user us) ≡ ite (text_discrete user u) 0 (times c u us)
  times-others_than u user [] = ground arith
  times-others_than u user (v ∷ vs) = ground (arith, times-others_than u user vs)

  -- The list of a Message that was just written.
  send_message-Addressed :
      (others : Db → Db) (id : String) (now : ℤ) (db : Db) (user : String) (send : SendMessage)
      (sent : SentMessage)
      → (Messages.send_message others id now db user send).1 ≡ Errors.ok sent
      → sent.created ≡ true
      → sent.participants
        ≡ participants (Messages.send_message others id now db user send).0 send.conversation_id
  unfolding Messages.send_message store_and_address insert_message_idempotent allocate_and_insert
  send_message-Addressed others id now db user send sent e made = ground (arith, e, made)

  conversation_audience-outside :
      (db : Db) (user conversation u : String)
      → times c u (participants db conversation) ≡ 0
      → (us : List String) → audience_of (conversation_audience db user conversation) ≡ some us
      → times c u us ≡ 0
  unfolding conversation_audience
  conversation_audience-outside db user conversation u h us e =
      let listed : us ≡ others_than user (participants db conversation) = ground (arith, e) in
      ap (times c u) listed
      ∙ (times-others_than u user (participants db conversation) ∙ ground (arith, h))

  fan_out-outside :
      (r : ConnectionRegistry Queue) (sent : SentMessage) (u : String) (id : ℕ)
      → (sent.created ≡ true → times c u sent.participants ≡ 0)
      → queue c (fan_out c r sent) u id ≡ queue c r u id
  unfolding fan_out
  fan_out-outside r sent u id h = elim (Bool-cases sent.created) [
    | inr again ↦
        let quiet : fan_out c r sent ≡ r = ground (arith, again) in ap (λ q. queue c q u id) quiet
    | inl made ↦
        let event = ServerEvent.new_message (record { message = sent.message }) in
        let told : fan_out c r sent ≡ (deliver c r sent.participants event).0 =
          ground (arith, made) in
        ap (λ q. queue c q u id) told
        ∙ queue-deliver_absent c r sent.participants u event id (h made)
  ]

  -- A Message that is sent, and the end of its sender's typing, reach nobody but Participants: no
  -- connection of a User who is not listed in the Conversation, in the tables that the send leaves,
  -- is sent anything.
  pub deliver_message-participants :
      (hub : Hub c) (given : Given) (user : String) (send : SendMessage) (u : String) (id : ℕ)
      → times c u (participants (deliver_message c hub given user send).0.chat send.conversation_id)
        ≡ 0
      → queue c (deliver_message c hub given user send).0.registry u id ≡ queue c hub.registry u id
  unfolding deliver_message
  deliver_message-participants hub given user send u id h =
      let done = Messages.send_message given.others given.id given.now hub.chat user send in
      elim (Result-cases done.1) [
        | inl (error, e) ↦
            let quiet : (deliver_message c hub given user send).0.registry ≡ hub.registry =
              ground (arith, e) in
            ap (λ r. queue c r u id) quiet
        | inr (sent, e) ↦
            let absent : times c u (participants done.0 send.conversation_id) ≡ 0 =
              ground (arith, e, h) in
            let listed =
              send_message-Addressed given.others given.id given.now hub.chat user send sent e in
            let audience = audience_of (conversation_audience done.0 user send.conversation_id) in
            let spread = fan_out c hub.registry sent in
            let after : (deliver_message c hub given user send).0.registry
                ≡ (clear_typing c hub.typing spread user send.conversation_id given.instant
                    audience).1 =
              ground (arith, e) in
            ap (λ r. queue c r u id) after
            ∙ (clear_typing-outside c hub.typing spread user send.conversation_id given.instant
                  audience u id
                  (conversation_audience-outside done.0 user send.conversation_id u absent)
                ∙ fan_out-outside hub.registry sent u id
                    (λ made. ap (times c u) (listed made) ∙ absent))
      ]
