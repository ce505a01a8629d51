-- ===== src/Chat/Groups/Adding.antt =====
-- backend/crates/chat/src/service.rs: inviting Users to a group that exists, and its announcement.
use jiuyue.Base.{
  leb, if◌then◌else◌, is_some, length, is_empty, ℕ, ◌+◌, String, not, ◌||◌, Option, none, some,
  List, [], ◌∷◌, ◌++◌, text_key, nat_key,
}
use jiuyue.Base.Map.{lookup}
use jiuyue.Base.Int.{ℤ}
use jiuyue.Contract.{
  required, too_long, invalid_format, member, MemberView, joined, max_group_members,
}
use jiuyue.Chat.Errors.{
  no_such_user, conversation_not_found, already_member, internal, Result, ok, err, require, ok_or,
  invalid, ◌>>=◌, ◌>>◌,
}
use jiuyue.Chat.Text.{is_in, normalise_usernames, normalise_announcement}
use jiuyue.Chat.Permission.{invite_members, edit_group_info, ensure}
use jiuyue.Chat.Store.{Conversation, member_key, Member, PeerRow, Db, same}
use jiuyue.Chat.Store.Members.{member_role, member_count}
use jiuyue.Chat.Store.Creation.{find_user_by_username, add_member_with_role, set_announcement}
use jiuyue.Chat.Groups.{
  MembershipNotice, conversation, changed, MembershipUpdate, require_group_role,
}
use jiuyue.Chat.Groups.Listing.{list_members}
use jiuyue.Chat.Groups.Inviting.{group_summary_from}

-- The loop over the names: a repeat is skipped before its membership is asked for.
unfoldable pub resolve_invited :
    Db → String → String → List String → List String → Result (List PeerRow)
unfolding find_user_by_username member_role
resolve_invited db caller_id id seen [] = ok []
resolve_invited db caller_id id seen (name ∷ names) = do
  user ← ok_or (find_user_by_username db name) no_such_user
  require (not (same user.id caller_id)) (invalid "member_usernames" invalid_format "你已经在群聊中")
  require (is_in user.id seen || not (is_some (member_role db id user.id))) already_member
  rest ← resolve_invited db caller_id id (user.id ∷ seen) names
  ok (if is_in user.id seen then rest else user ∷ rest)

unfoldable pub may_invite :
    (String → String) → Db → String → String → List String → Result (Conversation × List PeerRow)
unfolding require_group_role ensure normalise_usernames resolve_invited member_count
may_invite to_lowercase db caller_id id usernames = do
  role ← require_group_role db id caller_id
  found ← ok_or (lookup id db.conversations) conversation_not_found
  ensure role invite_members
  let names = normalise_usernames to_lowercase usernames
  require (not (is_empty names)) (invalid "member_usernames" required "请至少选择一位成员")
  invited ← resolve_invited db caller_id id [] names
  require (leb (member_count db id + length invited) max_group_members)
      (invalid "member_usernames" too_long "群聊成员数量已达上限")
  ok (found, invited)

-- One statement for each: those before a statement that fails stay invited.
unfoldable pub invite_each : Db → String → List PeerRow → ℤ → Db × Result (Unit {0})
unfolding add_member_with_role
invite_each db id [] now = (db, ok tt)
invite_each db id (u ∷ us) now = elim (add_member_with_role db db.members id u.id "member" now) [
  | err e ↦ (db, err e)
  | ok rows ↦ invite_each (record db { members = rows }) id us now
]

abbrev pub everyone : List (Member × MemberView) → List String
everyone [] = []
everyone ((m, view) ∷ views) = view.user_id ∷ everyone views

abbrev pub find_view : String → List (Member × MemberView) → Option MemberView
find_view user_id [] = none
find_view user_id ((m, view) ∷ views) =
    if same view.user_id user_id then some view else find_view user_id views

unfoldable pub joined_notices :
    List (Member × MemberView) → List PeerRow → Result (List MembershipNotice)
joined_notices views [] = ok []
joined_notices views (u ∷ us) = do
  view ← ok_or (find_view u.id views) internal
  rest ← joined_notices views us
  ok (changed (everyone views) (joined view) ∷ rest)

unfoldable pub opened_notices : String → Conversation → ℕ → List PeerRow → List MembershipNotice
unfolding group_summary_from
opened_notices id c total [] = []
opened_notices id c total (u ∷ us) =
    conversation u.id (group_summary_from id c member total 0) ∷ opened_notices id c total us

-- `ChatService::add_group_members`.
unfoldable pub add_group_members :
    (String → String) → ℤ → Db → String → String → List String → Db × Result MembershipUpdate
unfolding may_invite invite_each list_members joined_notices opened_notices
add_group_members to_lowercase now db caller_id id usernames =
    elim (may_invite to_lowercase db caller_id id usernames) [
      | err e ↦ (db, err e)
      | ok checked ↦
          let (c, invited) = checked in
          let (db', written) = invite_each db id invited now in
          let views = list_members db'.users id db'.members in
          (
            db',
            do
              written
              arrivals ← joined_notices views invited
              ok (record {
                conversation_id = id;
                actor_id = caller_id;
                notices = opened_notices id c (length views) invited ++ arrivals;
              }),
          )
    ]

unfoldable pub announced :
    String → Conversation → ℕ → List (Member × MemberView) → List MembershipNotice
unfolding group_summary_from
announced id c total [] = []
announced id c total ((m, view) ∷ views) =
    conversation view.user_id (group_summary_from id c view.role total m.unread_count)
    ∷ announced id c total views

unfoldable pub may_announce :
    Db → String → String → Option String → Result (Conversation × Option String)
unfolding require_group_role ensure normalise_announcement
may_announce db caller_id id text = do
  role ← require_group_role db id caller_id
  found ← ok_or (lookup id db.conversations) conversation_not_found
  ensure role edit_group_info
  announcement ← normalise_announcement text
  ok (found, announcement)

-- `ChatService::update_group_announcement`: every member is sent the summary with the new text.
unfoldable pub update_group_announcement :
    Db → String → String → Option String → Db × Result MembershipUpdate
unfolding may_announce set_announcement list_members announced
update_group_announcement db caller_id id text = elim (may_announce db caller_id id text) [
  | err e ↦ (db, err e)
  | ok checked ↦
      let (c, announcement) = checked in
      let (db', set) = set_announcement db id announcement in
      let views = list_members db'.users id db'.members in
      (
        db',
        do
          require set conversation_not_found
          ok (record {
            conversation_id = id;
            actor_id = caller_id;
            notices = announced id (record c { announcement = announcement }) (length views) views;
          }),
      )
]
