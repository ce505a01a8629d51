-- ===== src/Chat/Store/Reads.antt =====
-- backend/crates/chat/src/repository.rs: read positions and Unread Counts.
use jiuyue.Base.{
  ltb, if◌then◌else◌, ℕ, ◌+◌, min, max, String, not, ◌&&◌, Option, none, some, List, [], ◌∷◌,
  text_key, nat_key,
}
use jiuyue.Base.Map.{lookup, insert}
use jiuyue.Base.Int.{ℤ, pos_part}
use jiuyue.Chat.Store.{member_key, Member, MessageRow, Db, same, key}

pub record ReadStateRow : Type 0 where
  pub read_marker_seq : ℕ
  pub read_receipt_seq : ℕ
  pub unread_count : ℕ

-- The `count(*)` of `MARK_READ`: what others wrote after a position.
unfoldable pub unread_after : List MessageRow → String → String → ℕ → ℕ
unread_after [] conversation_id user marker = 0
unread_after (m ∷ ms) conversation_id user marker =
    if same m.conversation_id conversation_id && (not (same m.sender_id user) && ltb marker m.seq)
    then 1 + unread_after ms conversation_id user marker
    else unread_after ms conversation_id user marker

abbrev pub read_state_of : Member → ReadStateRow
read_state_of m = record {
  read_marker_seq = m.read_marker_seq;
  read_receipt_seq = m.read_receipt_seq;
  unread_count = m.unread_count;
}

-- One row of `MARK_READ`. A position is never negative, so `GREATEST` with a negative report is
-- the position itself, as with a report of zero.
abbrev pub advanced : List MessageRow → String → String → ℕ → ℤ → Member → Member
advanced messages conversation_id user newest_seq reported m =
    let reached = min (pos_part reported) newest_seq in
    let marker = max m.read_marker_seq reached in
    record m {
      read_marker_seq = marker;
      read_receipt_seq = max m.read_receipt_seq reached;
      unread_count = unread_after messages conversation_id user marker;
    }

-- `MARK_READ`, with the row that it returns.
unfoldable pub mark_read : Db → String → String → ℤ → Db × Option ReadStateRow
unfolding unread_after
mark_read db conversation_id user_id last_read_seq =
    elim (lookup conversation_id db.conversations) [
      | none ↦ (db, none)
      | some c ↦ elim (lookup (key conversation_id user_id) db.members) [
        | none ↦ (db, none)
        | some m ↦
            let m' = advanced db.messages conversation_id user_id c.next_seq last_read_seq m in
            (
              record db { members = insert (key conversation_id user_id) m' db.members },
              some (read_state_of m'),
            )
      ]
    ]

-- `SELECT_READ_STATE`.
unfoldable pub read_state : Db → String → String → Option ReadStateRow
read_state db conversation_id user_id = elim (lookup (key conversation_id user_id) db.members) [
  | none ↦ none
  | some m ↦ some (read_state_of m)
]
