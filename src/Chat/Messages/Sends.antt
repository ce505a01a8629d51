-- ===== src/Chat/Messages/Sends.antt =====
-- Sending end to end: retries, refusals, and who hears.
use jiuyue.Base.{
  Option-cases, any, String, ◌≡◌, refl, ◌≢◌, ◌⊎◌, inl, inr, Bool, true, false, some, List, [], ◌∷◌,
  arith, text_key, nat_key, not, ◌&&◌,
}
use jiuyue.Base.Map.{Map, keys, lookup, contains_key}
use jiuyue.Base.Int.{ℤ}
use jiuyue.Contract.{SendMessage}
use jiuyue.Chat.Errors.{ChatError, conversation_not_found, not_a_participant, Result, ok, err}
use jiuyue.Chat.Store.{
  MemberKey, member_key, Member, MessageRow, NewMessageRow, Db, same, key, membership, users_of,
  participants,
}
use jiuyue.Chat.Store.Messages.{insert_message_idempotent}
use jiuyue.Chat.Store.Idempotent.{insert_message_idempotent_twice}
use jiuyue.Chat.Messages.{
  validate_send, require_participant, message_view, SentMessage, store_and_address, send_message,
  others_than, conversation_audience,
}

Result-cases :
    {A : Type 0} (r : Result A) → ((e : ChatError) × (r ≡ err e)) ⊎ ((a : A) × (r ≡ ok a))
Result-cases (err e) = inl (e, refl)
Result-cases (ok a) = inr (a, refl)

abbrev new_row : String → String → SendMessage → NewMessageRow
new_row id sender send = record {
  id = id;
  conversation_id = send.conversation_id;
  sender_id = sender;
  client_msg_id = send.client_msg_id;
  body = send.body;
}

abbrev sent_as : Db → MessageRow → Bool → SentMessage
sent_as db row created = record {
  message = message_view row;
  participants = participants db row.conversation_id;
  created = created;
}

store_again :
    (others others' : Db → Db) (id id' sender : String) (now later : ℤ) (db : Db)
    (send : SendMessage) (sent : SentMessage)
    → (store_and_address others id now db sender send).1 ≡ ok sent
    → store_and_address others' id' later
        (store_and_address others id now db sender send).0
        sender
        send
      ≡ ((store_and_address others id now db sender send).0, ok (record sent { created = false }))
unfolding store_and_address
store_again others others' id id' sender now later db send sent h =
    elim (Result-cases (insert_message_idempotent others db (new_row id sender send) now).1) [
      | inl (e, failed) ↦ absurd (ground (arith, failed, h))
      | inr ((row, created), stored) ↦
          let again =
            insert_message_idempotent_twice others others' db (new_row id sender send)
              (new_row id' sender send) now later row created stored refl refl in
          ground (arith, stored, h, again)
    ]

-- A send that succeeded and is sent again by a sender who is still a Participant is answered with
-- the same Message and changes nothing, whatever other transactions commit meanwhile.
pub send_message_twice :
    (others others' : Db → Db) (id id' sender : String) (now later : ℤ) (db : Db)
    (send : SendMessage) (sent : SentMessage)
    → (send_message others id now db sender send).1 ≡ ok sent
    → membership (send_message others id now db sender send).0 send.conversation_id sender
      ≡ some true
    → send_message others' id' later (send_message others id now db sender send).0 sender send
      ≡ ((send_message others id now db sender send).0, ok (record sent { created = false }))
unfolding send_message require_participant
send_message_twice others others' id id' sender now later db send sent h belongs =
    ground (arith, store_again others others' id id' sender now later db send sent)

-- A send by anybody but a Participant is refused and changes nothing.
pub send_message_refused :
    (others : Db → Db) (id sender : String) (now : ℤ) (db : Db) (send : SendMessage)
    → membership db send.conversation_id sender ≢ some true
    → (e : ChatError) × (send_message others id now db sender send ≡ (db, err e))
unfolding send_message require_participant
send_message_refused others id sender now db send h = elim (Result-cases (validate_send send)) [
  | inl (e, bad) ↦ (e, rw (bad, send_message) refl)
  | inr (good, e) ↦ elim (Option-cases (membership db send.conversation_id sender)) [
    | inl none_such ↦ (conversation_not_found, ground (arith, e, none_such))
    | inr (b, known) ↦ (not_a_participant, ground (arith, e, known))
  ]
]

abbrev pub is_listed : String → List String → Bool
is_listed w us = any (λ u. same u w) us

users_of-listed :
    (id w : String) (ms : Map MemberKey Member)
    → is_listed w (users_of id (keys ms)) ≡ contains_key (key id w) ms
unfolding lookup
users_of-listed id w [] = refl
users_of-listed id w ((k, m) ∷ ms) = ground (arith, users_of-listed id w ms)

listed-others_than :
    (w user : String) (us : List String)
    → is_listed w (others_than user us) ≡ (not (same w user) && is_listed w us)
listed-others_than w user [] = ground arith
listed-others_than w user (u ∷ us) = ground (arith, listed-others_than w user us)

-- The audience of a User in a Conversation is every other Participant and nobody else, and only a
-- Participant has one.
conversation_audience-membership :
    (db : Db) (user id w : String) (us : List String)
    → conversation_audience db user id ≡ ok us
    → (membership db id user ≡ some true)
      × (is_listed w us ≡ (not (same w user) && contains_key (key id w) db.members))
unfolding conversation_audience require_participant participants
conversation_audience-membership db user id w us h = (
  ground (arith, h),
  ground (
    arith,
    h,
    listed-others_than w user (users_of id (keys db.members)),
    users_of-listed id w db.members,
  ),
)
