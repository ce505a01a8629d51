-- ===== src/Chat/Store/Members.antt =====
-- backend/crates/chat/src/repository.rs: who belongs to a Conversation, and in which role.
use jiuyue.Base.{
  if◌then◌else◌, length, select, ℕ, String, Bool, true, false, not, Option, none, some, text_key,
  nat_key,
}
use jiuyue.Base.Map.{Map, retain, lookup, insert, remove, contains_key}
use jiuyue.Chat.Store.{MemberKey, member_key, Member, MessageRow, Db, same, key}

-- `SELECT_MEMBER_ROLE`.
unfoldable pub member_role : Db → String → String → Option String
member_role db conversation_id user_id = elim (lookup (key conversation_id user_id) db.members) [
  | none ↦ none
  | some m ↦ some m.role
]

abbrev pub is_owner_row : Member → Bool
is_owner_row m = same m.role "owner"

-- `DELETE_MEMBER`: never the owner.
unfoldable pub remove_member : Db → String → String → Db × Bool
remove_member db conversation_id user_id = elim (lookup (key conversation_id user_id) db.members) [
  | none ↦ (db, false)
  | some m ↦
      if is_owner_row m
      then (db, false)
      else (record db { members = remove (key conversation_id user_id) db.members }, true)
]

-- `SET_MEMBER_ROLE`: never the owner's.
unfoldable pub set_member_role : Db → String → String → String → Db × Bool
set_member_role db conversation_id user_id role =
    elim (lookup (key conversation_id user_id) db.members) [
      | none ↦ (db, false)
      | some m ↦ if is_owner_row m then (db, false) else (
        record db {
          members = insert (key conversation_id user_id) (record m { role = role }) db.members;
        },
        true,
      )
    ]

-- `DEMOTE_OWNER`, none when it touches no row.
unfoldable pub demote_owner : Map MemberKey Member → String → String → Option (Map MemberKey Member)
demote_owner members conversation_id user_id = elim (lookup (key conversation_id user_id) members) [
  | none ↦ none
  | some m ↦
      if is_owner_row m
      then some (insert (key conversation_id user_id) (record m { role = "admin" }) members)
      else none
]

-- `PROMOTE_OWNER`, none when it touches no row.
unfoldable pub promote_owner :
    Map MemberKey Member → String → String → Option (Map MemberKey Member)
promote_owner members conversation_id user_id =
    elim (lookup (key conversation_id user_id) members) [
      | none ↦ none
      | some m ↦ some (insert (key conversation_id user_id) (record m { role = "owner" }) members)
    ]

-- One transaction: demote, then promote; either update that touches no row rolls it back.
unfoldable pub transfer_ownership : Db → String → String → String → Db × Bool
unfolding demote_owner promote_owner
transfer_ownership db conversation_id from_user_id to_user_id =
    elim (demote_owner db.members conversation_id from_user_id) [
      | none ↦ (db, false)
      | some demoted ↦ elim (promote_owner demoted conversation_id to_user_id) [
        | none ↦ (db, false)
        | some promoted ↦ (record db { members = promoted }, true)
      ]
    ]

abbrev pub is_elsewhere : String → MessageRow → Bool
is_elsewhere conversation_id m = not (same m.conversation_id conversation_id)

-- `DELETE_CONVERSATION`, with the two cascades.
unfoldable pub dissolve : Db → String → Db × Bool
dissolve db conversation_id =
    if contains_key conversation_id db.conversations
    then (
      record db {
        conversations = remove conversation_id db.conversations;
        members = retain (λ k _. not (same k.conversation_id conversation_id)) db.members;
        messages = select (is_elsewhere conversation_id) db.messages;
      },
      true,
    )
    else (db, false)

-- `COUNT_MEMBERS`.
unfoldable pub member_count : Db → String → ℕ
member_count db conversation_id =
    length (retain (λ k _. same k.conversation_id conversation_id) db.members)
