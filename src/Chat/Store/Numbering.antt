-- ===== src/Chat/Store/Numbering.antt =====
-- The invariant of the Message table: each Conversation is numbered from one without a gap, and no
-- idempotency key stands twice.
use jiuyue.Base.{
  if◌then◌else◌, Option-cases, ℕ, zero, suc, ◌+◌, String, ◌≡◌, refl, inl, inr, Bool, Option, none,
  some, List, [], ◌∷◌, ◌++◌, arith, text_key, nat_key, text_discrete, ap, ◌∙◌, ◌∙◌, sym, subst,
}
use jiuyue.Base.Map.{lookup, lookup-insert, insert}
use jiuyue.Base.Int.{ℤ}
use jiuyue.Chat.Store.{Conversation, member_key, MessageRow, NewMessageRow, Db, same}
use jiuyue.Chat.Store.Messages.{
  has_client_id, find_message_by_client_id, row_of, allocate_and_insert, insert_message_idempotent,
}

-- The Sequence Numbers of a Conversation in the order in which they were written.
abbrev pub numbers : String → List MessageRow → List ℕ
numbers id [] = []
numbers id (m ∷ ms) = if same m.conversation_id id then m.seq ∷ numbers id ms else numbers id ms

abbrev pub up_to : ℕ → List ℕ
up_to zero = []
up_to (suc n) = up_to n ++ suc n ∷ []

abbrev pub next_seq_or_zero : Option Conversation → ℕ
next_seq_or_zero none = 0
next_seq_or_zero (some c) = c.next_seq

-- The newest Sequence Number of a Conversation, 0 if it has no Messages or does not exist.
abbrev pub newest : Db → String → ℕ
newest db id = next_seq_or_zero (lookup id db.conversations)

abbrev pub UniqueKeys : List MessageRow → Type 0
UniqueKeys [] = Unit
UniqueKeys (m ∷ ms) =
    (find_message_by_client_id ms m.sender_id m.client_msg_id ≡ none) × UniqueKeys ms

pub record IsValid (db : Db) : Type 0 where
  pub numbered : (id : String) → numbers id db.messages ≡ up_to (newest db id)
  pub keyed : UniqueKeys db.messages

pub numbers-append :
    (id : String) (ms : List MessageRow) (m : MessageRow)
    → numbers id (ms ++ m ∷ [])
      ≡ (if same m.conversation_id id then numbers id ms ++ m.seq ∷ [] else numbers id ms)
numbers-append id [] m = ground arith
numbers-append id (x ∷ ms) m = ground (arith, numbers-append id ms m)

abbrev pub or_row : Option MessageRow → Bool → MessageRow → Option MessageRow
or_row (some found) hit m = some found
or_row none hit m = if hit then some m else none

pub find-append :
    (ms : List MessageRow) (m : MessageRow) (sender client : String)
    → find_message_by_client_id (ms ++ m ∷ []) sender client
      ≡ or_row (find_message_by_client_id ms sender client) (has_client_id sender client m) m
unfolding find_message_by_client_id
find-append [] m sender client = refl
find-append (x ∷ ms) m sender client = ground (arith, find-append ms m sender client)

append-UniqueKeys :
    (ms : List MessageRow) (m : MessageRow)
    → UniqueKeys ms
    → find_message_by_client_id ms m.sender_id m.client_msg_id ≡ none
    → UniqueKeys (ms ++ m ∷ [])
unfolding find_message_by_client_id
append-UniqueKeys [] m u h = (refl, tt)
append-UniqueKeys (x ∷ ms) m u h =
    ground (arith, find-append ms m x.sender_id x.client_msg_id, append-UniqueKeys ms m u.1)

up_to-next : (n : ℕ) → up_to (n + 1) ≡ up_to n ++ (n + 1) ∷ []
up_to-next n =
    let next : suc n ≡ n + 1 = omega arith in subst (λ k. up_to k ≡ up_to n ++ k ∷ []) next refl

numbered_next :
    (db : Db) (m : NewMessageRow) (now : ℤ) (c : Conversation)
    → IsValid db
    → lookup m.conversation_id db.conversations ≡ some c
    → (id : String)
    → numbers id (db.messages ++ row_of m (c.next_seq + 1) now ∷ [])
      ≡ up_to (
          next_seq_or_zero (
            lookup id
              (insert m.conversation_id (record c { next_seq = c.next_seq + 1 }) db.conversations)))
numbered_next db m now c v e id =
    let c' : Conversation = record c { next_seq = c.next_seq + 1 } in
    elim (text_discrete m.conversation_id id) [
      | yes p ↦
          let before : numbers id db.messages ≡ up_to c.next_seq =
            v.numbered id
            ∙ ap (λ i. up_to (next_seq_or_zero (lookup i db.conversations))) (sym p)
            ∙ ap (λ o. up_to (next_seq_or_zero o)) e in
          let written : numbers id (db.messages ++ row_of m (c.next_seq + 1) now ∷ [])
              ≡ numbers id db.messages ++ (c.next_seq + 1) ∷ [] =
            ground (arith, numbers-append id db.messages (row_of m (c.next_seq + 1) now)) in
          let newer : lookup id (insert m.conversation_id c' db.conversations) ≡ some c' =
            ground (arith, lookup-insert m.conversation_id id c' db.conversations) in
          written
          ∙ ap (λ l. l ++ (c.next_seq + 1) ∷ []) before
          ∙ sym (up_to-next c.next_seq)
          ∙ sym (ap (λ o. up_to (next_seq_or_zero o)) newer)
      | no p ↦ ground (
        arith,
        v.numbered id,
        numbers-append id db.messages (row_of m (c.next_seq + 1) now),
        ap (λ o. up_to (next_seq_or_zero o))
            (lookup-insert m.conversation_id id c' db.conversations),
      )
    ]

pub allocate_and_insert-IsValid :
    (db : Db) (m : NewMessageRow) (now : ℤ) → IsValid db → IsValid (allocate_and_insert db m now).0
unfolding allocate_and_insert
allocate_and_insert-IsValid db m now v =
    elim (Option-cases (lookup m.conversation_id db.conversations)) [
      | inl e ↦ rw (e, allocate_and_insert) v
      | inr (c, e) ↦
          elim (Option-cases (find_message_by_client_id db.messages m.sender_id m.client_msg_id)) [
            | inl free ↦
                rw (e, free, allocate_and_insert)
                  (record {
                    numbered = numbered_next db m now c v e;
                    keyed =
                        append-UniqueKeys db.messages (row_of m (c.next_seq + 1) now) v.keyed free;
                  })
            | inr (found, taken) ↦ rw (e, taken, allocate_and_insert) v
          ]
    ]

-- Whatever valid state other transactions leave in between, storing a Message leaves each
-- Conversation numbered from one to its newest without a gap, and each idempotency key with one
-- Message at most.
pub insert_message_idempotent-IsValid :
    (others : Db → Db) (db : Db) (m : NewMessageRow) (now : ℤ)
    → IsValid db
    → IsValid (others db)
    → IsValid (insert_message_idempotent others db m now).0
unfolding insert_message_idempotent
insert_message_idempotent-IsValid others db m now v w =
    elim (Option-cases (find_message_by_client_id db.messages m.sender_id m.client_msg_id)) [
      | inl free ↦
          rw (free, insert_message_idempotent) (allocate_and_insert-IsValid (others db) m now w)
      | inr (found, taken) ↦ rw (taken, insert_message_idempotent) v
    ]
