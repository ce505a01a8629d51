-- ===== src/Chat/Groups/Inviting.antt =====
-- backend/crates/chat/src/service.rs: creating a group, inviting Users and the announcement.
use jiuyue.Base.{
  leb, if◌then◌else◌, length, is_empty, ℕ, ◌+◌, String, Bool, true, not, Option, none, some, List,
  [], ◌∷◌, text_key, nat_key,
}
-- none
use jiuyue.Base.Int.{ℤ, pos}
use jiuyue.Contract.{
  required, too_long, too_short, invalid_format, Role, owner, member, group, ConversationSummary,
  max_group_members, min_group_members, max_group_title_chars,
}
use jiuyue.Chat.Errors.{no_such_user, Result, ok, err, require, ok_or, invalid, ◌>>=◌, ◌>>◌}
use jiuyue.Chat.Ident.{codes}
use jiuyue.Chat.Text.{trim_start, trim_end, is_empty_text, is_in, normalise_usernames}
use jiuyue.Chat.Store.{Conversation, member_key, PeerRow, Db, same}
use jiuyue.Chat.Store.Members.{member_count}
use jiuyue.Chat.Store.Creation.{find_user_by_username, create_group_with_members}

pub record ConversationNotice : Type 0 where
  pub user_id : String
  pub conversation : ConversationSummary

pub record OpenedConversation : Type 0 where
  pub summary : ConversationSummary
  pub notices : List ConversationNotice
  pub created : Bool

abbrev pub title_or_default : Option String → String
title_or_default none = ""
title_or_default (some title) = title

unfoldable pub group_summary_from : String → Conversation → Role → ℕ → ℕ → ConversationSummary
group_summary_from id c my_role member_count unread_count = record {
  id = id;
  kind = group;
  peer = none;
  group = some (record {
    title = title_or_default c.title;
    member_count = pos member_count;
    my_role = my_role;
    announcement = c.announcement;
  });
  unread_count = pos unread_count;
  created_at_ms = c.created_at_ms;
}

-- The loop of `create_group` over the names, with the ids seen so far.
unfoldable pub resolve_members : Db → String → List String → List String → Result (List PeerRow)
unfolding find_user_by_username
resolve_members db caller_id seen [] = ok []
resolve_members db caller_id seen (name ∷ names) = do
  user ← ok_or (find_user_by_username db name) no_such_user
  require (not (same user.id caller_id)) (invalid "member_usernames" invalid_format "群主无需重复添加自己")
  rest ← resolve_members db caller_id (user.id ∷ seen) names
  ok (if is_in user.id seen then rest else user ∷ rest)

abbrev pub ids : List PeerRow → List String
ids [] = []
ids (u ∷ us) = u.id ∷ ids us

unfoldable pub member_notices : String → Conversation → ℕ → List PeerRow → List ConversationNotice
unfolding group_summary_from
member_notices id c total [] = []
member_notices id c total (u ∷ us) =
    record { user_id = u.id; conversation = group_summary_from id c member total 0 }
    ∷ member_notices id c total us

-- The checks of `create_group`: the title and the members to invite.
unfoldable pub validate_group :
    (String → String) → Db → String → String → List String → Result (String × List PeerRow)
unfolding trim_start trim_end normalise_usernames resolve_members
validate_group to_lowercase db caller_id title usernames =
    let trimmed = trim_start (trim_end title) in
    let names = normalise_usernames to_lowercase usernames in
    do
      require (not (is_empty_text trimmed)) (invalid "title" required "请输入群名称")
      require (leb (length (codes trimmed)) max_group_title_chars)
          (invalid "title" too_long "群名称最多 100 个字符")
      require (not (is_empty names)) (invalid "member_usernames" required "请至少邀请两位成员")
      members ← resolve_members db caller_id [] names
      require (leb min_group_members (1 + length members))
          (invalid "member_usernames" too_short "群聊至少需要三位成员")
      require (leb (1 + length members) max_group_members)
          (invalid "member_usernames" too_long "群聊成员数量已达上限")
      ok (trimmed, members)

-- `ChatService::create_group`. `id` is the new ULID.
unfoldable pub create_group :
    (String → String)
    → String
    → ℤ
    → Db
    → String
    → String
    → List String
    → Db × Result OpenedConversation
unfolding validate_group create_group_with_members group_summary_from member_notices
create_group to_lowercase id now db caller_id title usernames =
    elim (validate_group to_lowercase db caller_id title usernames) [
      | err e ↦ (db, err e)
      | ok checked ↦
          let (trimmed, members) = checked in
          let (db', created) =
            create_group_with_members db id trimmed caller_id (ids members) now in
          let total = 1 + length members in
          (
            db',
            do
              c ← created
              ok (record {
                summary = group_summary_from id c owner total 0;
                notices =
                    record {
                      user_id = caller_id;
                      conversation = group_summary_from id c owner total 0;
                    }
                    ∷ member_notices id c total members;
                created = true;
              }),
          )
    ]
