-- ===== src/Chat/Store/Creation.antt =====
-- backend/crates/chat/src/repository.rs: creating a group, adding its members, and what is read of
-- Users and members for that.
use jiuyue.Base.{
  if◌then◌else◌, String, Bool, true, false, Option, none, some, List, [], ◌∷◌, text_key, nat_key,
  ◌&&◌, ◌||◌, is_some, not,
}
use jiuyue.Base.Map.{Map, lookup, insert, contains_key}
use jiuyue.Base.Int.{ℤ}
use jiuyue.Contract.{owner, member, as_str}
use jiuyue.Chat.Errors.{database, Result, ok, err, ◌>>=◌}
use jiuyue.Chat.Store.{Conversation, MemberKey, member_key, Member, PeerRow, Db, same, key}

-- `SELECT_USER_BY_USERNAME` and `SELECT_USER_BY_ID`.
unfoldable pub find_user : (PeerRow → Bool) → List PeerRow → Option PeerRow
find_user p [] = none
find_user p (u ∷ us) = if p u then some u else find_user p us

unfoldable pub find_user_by_username : Db → String → Option PeerRow
unfolding find_user
find_user_by_username db username = find_user (λ u. same u.username username) db.users

abbrev is_referenced : Db → String → String → Bool
is_referenced t conversation_id user_id =
    contains_key conversation_id t.conversations
    && is_some (find_user (λ u. same u.id user_id) t.users)

-- `INSERT_MEMBER_WITH_ROLE`: the positions start at the column defaults, and a member who is there
-- already violates the primary key. `t` has the tables that the foreign keys point into.
unfoldable pub add_member_with_role :
    Db → Map MemberKey Member → String → String → String → ℤ → Result (Map MemberKey Member)
add_member_with_role t members conversation_id user_id role now =
    if contains_key (key conversation_id user_id) members
      || not (is_referenced t conversation_id user_id)
    then err database
    else ok (
        insert (key conversation_id user_id)
          (record {
            role = role;
            joined_at_ms = now;
            read_marker_seq = 0;
            read_receipt_seq = 0;
            unread_count = 0;
          })
          members)

-- One statement for each User, in the role of a member.
unfoldable pub add_all :
    Db → Map MemberKey Member → String → List String → ℤ → Result (Map MemberKey Member)
unfolding add_member_with_role as_str
add_all t members conversation_id [] now = ok members
add_all t members conversation_id (u ∷ us) now =
    add_member_with_role t members conversation_id u (as_str member) now >>= λ added.
    add_all t added conversation_id us now

abbrev pub new_group : String → ℤ → Conversation
new_group title now = record {
  kind = "group";
  title = some title;
  announcement = none;
  created_at_ms = now;
  next_seq = 0;
}

-- `create_group_with_members`, one transaction: a statement that fails leaves nothing behind.
unfoldable pub create_group_with_members :
    Db → String → String → String → List String → ℤ → Db × Result Conversation
unfolding add_member_with_role add_all as_str
create_group_with_members db id title owner_id member_ids now =
    let opened : Db = record db {
      conversations = insert id (new_group title now) db.conversations;
    } in
    let members = add_member_with_role opened db.members id owner_id (as_str owner) now >>= λ owned.
    add_all opened owned id member_ids now in
    if contains_key id db.conversations then (db, err database) else elim members [
      | err e ↦ (db, err e)
      | ok rows ↦ (record opened { members = rows }, ok (new_group title now))
    ]

-- `SET_ANNOUNCEMENT`.
unfoldable pub set_announcement : Db → String → Option String → Db × Bool
set_announcement db id announcement = elim (lookup id db.conversations) [
  | none ↦ (db, false)
  | some c ↦ (
    record db {
      conversations = insert id (record c { announcement = announcement }) db.conversations;
    },
    true,
  )
]
