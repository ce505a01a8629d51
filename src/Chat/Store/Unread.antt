-- ===== src/Chat/Store/Unread.antt =====
-- The Unread Count against the Messages: what a send and a read leave of it.
use jiuyue.Base.{
  ltb, if◌then◌else◌, ℕ, ◌+◌, String, ◌≡◌, refl, not, ◌&&◌, Option, none, some, List, [], ◌∷◌, ◌++◌,
  arith, text_key, nat_key, Option-cases, inl, inr, max, min, All, ◌≤◌, ◌≢◌, Bool, subst, sym,
  Bool-cases, zero, suc,
}
use jiuyue.Base.Map.{Map, lookup, lookup-insert}
use jiuyue.Chat.Store.{
  MemberKey, member_key, Member, MessageRow, Db, same, NewMessageRow, key, Conversation,
}
use jiuyue.Chat.Store.Messages.{
  bump, increment_unread, allocate_and_insert, find_message_by_client_id, row_of,
  insert_message_idempotent,
}
use jiuyue.Chat.Store.Reads.{unread_after, mark_read, ReadStateRow, advanced, read_state_of}
use jiuyue.Base.Int.{ℤ, pos_part}
use jiuyue.Chat.Store.Numbering.{numbers, up_to, newest, next_seq_or_zero, IsValid}

abbrev bumped : String → String → ℕ → MemberKey → Option Member → Option Member
bumped conversation_id sender seq k none = none
bumped conversation_id sender seq k (some m) = some (bump conversation_id sender seq k m)

pub lookup-increment_unread :
    (ms : Map MemberKey Member) (conversation_id sender : String) (seq : ℕ) (k : MemberKey)
    → lookup k (increment_unread ms conversation_id sender seq)
      ≡ bumped conversation_id sender seq k (lookup k ms)
unfolding lookup increment_unread
lookup-increment_unread [] conversation_id sender seq k = refl
lookup-increment_unread ((j, m) ∷ ms) conversation_id sender seq k =
    ground (arith, lookup-increment_unread ms conversation_id sender seq k)

unread_after-append :
    (ms : List MessageRow) (m : MessageRow) (id user : String) (marker : ℕ)
    → unread_after (ms ++ m ∷ []) id user marker
      ≡ unread_after ms id user marker
        + (if same m.conversation_id id && (not (same m.sender_id user) && ltb marker m.seq)
            then 1
            else 0)
unfolding unread_after
unread_after-append [] m id user marker = ground arith
unread_after-append (x ∷ ms) m id user marker =
    ground (arith, unread_after-append ms m id user marker)

abbrev SettledRow : List MessageRow → MemberKey → Option Member → Type 0
SettledRow ms k none = Unit
SettledRow ms k (some m) =
    m.unread_count ≡ unread_after ms k.conversation_id k.user_id m.read_marker_seq

-- A member's count is the number of Messages by others after its Read Marker.
abbrev pub IsSettled : Db → MemberKey → Type 0
IsSettled db k = SettledRow db.messages k (lookup k db.members)

settled-append :
    (ms : List MessageRow) (row : MessageRow) (k : MemberKey) (o : Option Member)
    → SettledRow ms k o
    → SettledRow (ms ++ row ∷ []) k (bumped row.conversation_id row.sender_id row.seq k o)
settled-append ms row k none h = tt
settled-append ms row k (some m) h =
    ground (arith, unread_after-append ms row k.conversation_id k.user_id m.read_marker_seq)

pub allocate_and_insert-IsSettled :
    (db : Db) (m : NewMessageRow) (now : ℤ) (k : MemberKey)
    → IsSettled db k
    → IsSettled (allocate_and_insert db m now).0 k
unfolding allocate_and_insert
allocate_and_insert-IsSettled db m now k settled =
    elim (Option-cases (lookup m.conversation_id db.conversations)) [
      | inl e ↦ rw (e, allocate_and_insert) settled
      | inr (c, e) ↦
          elim (Option-cases (find_message_by_client_id db.messages m.sender_id m.client_msg_id)) [
            | inl free ↦
                rw
                  (
                    e,
                    free,
                    allocate_and_insert,
                    lookup-increment_unread db.members m.conversation_id m.sender_id
                        (c.next_seq + 1) k,
                  )
                  (settled-append db.messages (row_of m (c.next_seq + 1) now) k
                    (lookup k db.members) settled)
            | inr (found, taken) ↦ rw (e, taken, allocate_and_insert) settled
          ]
    ]

-- A send keeps a member's count right, whoever sends and however far the member has read, if what
-- other transactions do in between keeps it right.
pub insert_message_idempotent-IsSettled :
    (others : Db → Db) (db : Db) (m : NewMessageRow) (now : ℤ) (k : MemberKey)
    → IsSettled db k
    → IsSettled (others db) k
    → IsSettled (insert_message_idempotent others db m now).0 k
unfolding insert_message_idempotent
insert_message_idempotent-IsSettled others db m now k settled after =
    elim (Option-cases (find_message_by_client_id db.messages m.sender_id m.client_msg_id)) [
      | inl free ↦
          rw (free, insert_message_idempotent)
            (allocate_and_insert-IsSettled (others db) m now k after)
      | inr (found, taken) ↦ rw (taken, insert_message_idempotent) settled
    ]

-- A read makes the count of its member right whatever it was before. The Read Marker reaches what
-- was reported or the newest Message, moves neither back nor past the newest Message, and no other
-- row changes.
pub mark_read-IsSettled :
    (db : Db) (id user : String) (reported : ℤ) (c : Conversation) (m : Member)
    → lookup id db.conversations ≡ some c
    → lookup (key id user) db.members ≡ some m
    → IsSettled (mark_read db id user reported).0 (key id user)
      × (state : ReadStateRow) × ((mark_read db id user reported).1 ≡ some state)
      × (m.read_marker_seq ≤ state.read_marker_seq)
      × (min (pos_part reported) c.next_seq ≤ state.read_marker_seq)
      × (state.read_marker_seq ≤ max m.read_marker_seq c.next_seq)
      × ((k : MemberKey)
          → key id user ≢ k
          → lookup k (mark_read db id user reported).0.members ≡ lookup k db.members)
unfolding mark_read
mark_read-IsSettled db id user reported c m there here =
    let m' = advanced db.messages id user c.next_seq reported m in
    rw (there, here, mark_read, lookup-insert (key id user) (key id user) m' db.members)
      (
        ground arith,
        read_state_of m',
        refl,
        omega arith,
        omega arith,
        omega arith,
        λ k ne. ground (arith, lookup-insert (key id user) k m' db.members),
      )

abbrev UpTo : ℕ → List ℕ → Type 0
UpTo b = All (λ n. n ≤ b)

append-UpTo : (b : ℕ) (xs : List ℕ) (x : ℕ) → UpTo b xs → x ≤ b → UpTo b (xs ++ x ∷ [])
append-UpTo b [] x h k = (k, tt)
append-UpTo b (y ∷ xs) x h k = (h.0, append-UpTo b xs x h.1 k)

up_to-UpTo : (b n : ℕ) → n ≤ b → UpTo b (up_to n)
up_to-UpTo b zero h = tt
up_to-UpTo b (suc n) h = append-UpTo b (up_to n) (suc n) (up_to-UpTo b n (omega arith)) h

unread_after-numbers :
    (ms : List MessageRow) (id user : String) (marker : ℕ)
    → UpTo marker (numbers id ms)
    → unread_after ms id user marker ≡ 0
unfolding unread_after
unread_after-numbers [] id user marker h = refl
unread_after-numbers (m ∷ ms) id user marker h =
    let at : Bool → Type 0 =
      λ b. UpTo marker (if b then m.seq ∷ numbers id ms else numbers id ms) in
    elim (Bool-cases (same m.conversation_id id)) [
      | inl here ↦
          let split = subst at here h in
          ground (arith, here, split.0, unread_after-numbers ms id user marker split.1)
      | inr elsewhere ↦
          let rest = subst at elsewhere h in
          ground (arith, elsewhere, unread_after-numbers ms id user marker rest)
    ]

-- Reading up to the newest Message leaves nothing unread.
mark_read-newest :
    (db : Db) (id user : String) (reported : ℤ) (state : ReadStateRow)
    → IsValid db
    → newest db id ≤ pos_part reported
    → (mark_read db id user reported).1 ≡ some state
    → state.unread_count ≡ 0
unfolding mark_read
mark_read-newest db id user reported state v h answered =
    elim (Option-cases (lookup id db.conversations)) [
      | inl e ↦ absurd (ground (arith, e, answered))
      | inr (c, there) ↦ elim (Option-cases (lookup (key id user) db.members)) [
        | inl e ↦ absurd (ground (arith, e, there, answered))
        | inr (m, here) ↦
            let m' = advanced db.messages id user c.next_seq reported m in
            let reached : c.next_seq ≤ pos_part reported =
              subst (λ o. next_seq_or_zero o ≤ pos_part reported) there h in
            let numbered : numbers id db.messages ≡ up_to c.next_seq =
              subst (λ o. numbers id db.messages ≡ up_to (next_seq_or_zero o)) there
                (v.numbered id) in
            ground (
              arith,
              there,
              here,
              answered,
              unread_after-numbers db.messages id user m'.read_marker_seq (
                  subst (UpTo m'.read_marker_seq) (sym numbered)
                    (up_to-UpTo m'.read_marker_seq c.next_seq (omega arith))),
            )
      ]
    ]
