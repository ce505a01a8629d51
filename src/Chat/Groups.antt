-- ===== src/Chat/Groups.antt =====
-- backend/crates/chat/src/service.rs: removing, leaving, changing roles, handing a group over and
-- dissolving it. The reads of an operation see the state in which its write runs.
pub mod Owners
pub mod Operations
pub mod Outcomes
pub mod Inviting
pub mod Listing
pub mod Adding
pub mod Created
pub mod Steps
pub mod Tests
use jiuyue.Base.{
  if◌then◌else◌, last, ℕ, zero, suc, ◌+◌, ◌-◌, ◌/◌, String, Bool, true, false, not, List, [], ◌∷◌,
  ◌++◌,
}
use jiuyue.Base.Int.{ℤ, pos, negsuc, leb_ℤ}
use jiuyue.Contract.{
  FieldErrorCode, invalid_format, Role, owner, admin, member, as_str, from_stored, MembershipChange,
  removed, left, role_changed, ownership_transferred, dissolved, ConversationSummary,
}
use jiuyue.Chat.Errors.{
  ChatError, conversation_not_found, not_a_participant, not_a_group, member_not_found, internal,
  Result, ok, err, require, ok_or, invalid, ◌>>=◌, ◌>>◌,
}
use jiuyue.Chat.Ident.{is_ulid}
use jiuyue.Chat.Permission
use jiuyue.Chat.Permission.{
  remove_members, change_roles, transfer_ownership, ensure, ensure_remove, ensure_leave, refuse,
  is_owner,
}
use jiuyue.Chat.Store.{Conversation, Db, same, participants}
use jiuyue.Chat.Store.Members
use jiuyue.Chat.Store.Members.{member_role, remove_member, set_member_role, dissolve, member_count}
use jiuyue.Base.Map.{lookup}
use jiuyue.Base.{text_key}

pub data MembershipNotice : Type 0 where
  conversation : String → ConversationSummary → MembershipNotice
  changed : List String → MembershipChange → MembershipNotice

pub record MembershipUpdate : Type 0 where
  pub conversation_id : String
  pub actor_id : String
  pub notices : List MembershipNotice

abbrev pub update : String → String → List String → MembershipChange → MembershipUpdate
update conversation_id actor_id user_ids change = record {
  conversation_id = conversation_id;
  actor_id = actor_id;
  notices = changed user_ids change ∷ [];
}

-- `require_group_role`, without the row of the Conversation that no caller here reads.
unfoldable pub require_group_role : Db → String → String → Result Role
unfolding is_ulid member_role from_stored
require_group_role db conversation_id user_id = do
  require (is_ulid conversation_id) conversation_not_found
  found ← ok_or (lookup conversation_id db.conversations) conversation_not_found
  role ← ok_or (member_role db conversation_id user_id) not_a_participant
  require (same found.kind "group") not_a_group
  ok (from_stored role)

-- A write that says whether it touched a row, and the answer to give if it did.
abbrev pub written : {A : Type 0} → Db × Bool → ChatError → (Db → A) → Db × Result A
written (db', true) e answer = (db', ok (answer db'))
written (db', false) e answer = (db', err e)

-- The checks of an operation, then its write.
abbrev pub checked : {A B : Type 0} → Db → Result A → (A → Db × Result B) → Db × Result B
checked db (err e) rest = (db, err e)
checked db (ok a) rest = rest a

unfoldable pub may_remove_member : Db → String → String → String → Result (Unit {0})
unfolding require_group_role ensure ensure_remove member_role from_stored
may_remove_member db caller_id conversation_id member_id = do
  actor_role ← require_group_role db conversation_id caller_id
  ensure actor_role remove_members
  require (not (same member_id caller_id)) (invalid "user_id" invalid_format "不能移除自己，请使用退出群聊")
  target_role ← ok_or (member_role db conversation_id member_id) member_not_found
  ensure_remove actor_role (from_stored target_role)

unfoldable pub remove_group_member : Db → String → String → String → Db × Result MembershipUpdate
unfolding may_remove_member remove_member participants
remove_group_member db caller_id conversation_id member_id =
    checked db (may_remove_member db caller_id conversation_id member_id) (λ _.
      written (remove_member db conversation_id member_id) member_not_found (λ db'.
        update conversation_id caller_id (participants db' conversation_id ++ member_id ∷ [])
          (removed member_id)))

-- `count.saturating_sub(1)`.
abbrev pub one_less : ℕ → ℤ
one_less zero = negsuc 0
one_less (suc n) = pos n

unfoldable pub may_leave_group : Db → String → String → Result (Unit {0})
unfolding require_group_role ensure_leave member_count
may_leave_group db caller_id conversation_id = do
  role ← require_group_role db conversation_id caller_id
  ensure_leave role (one_less (member_count db conversation_id))

-- The last Participant to leave dissolves the group.
unfoldable pub leave_group : Db → String → String → Db × Result MembershipUpdate
unfolding may_leave_group dissolve remove_member participants member_count
leave_group db caller_id conversation_id =
    checked db (may_leave_group db caller_id conversation_id) (λ _.
      if leb_ℤ (one_less (member_count db conversation_id)) (pos 0)
      then written (dissolve db conversation_id) conversation_not_found
          (λ _. update conversation_id caller_id (participants db conversation_id) dissolved)
      else written (remove_member db conversation_id caller_id) internal (λ db'.
        update conversation_id caller_id (participants db' conversation_id ++ caller_id ∷ [])
          (left caller_id)))

unfoldable pub may_change_role : Db → String → String → String → Role → Result (Unit {0})
unfolding require_group_role ensure refuse member_role from_stored
may_change_role db caller_id conversation_id member_id role = do
  actor_role ← require_group_role db conversation_id caller_id
  ensure actor_role change_roles
  require (not (is_owner role)) (invalid "role" invalid_format "请使用转让群主来移交群聊")
  target_role ← ok_or (member_role db conversation_id member_id) member_not_found
  require (not (is_owner (from_stored target_role))) (refuse change_roles)

unfoldable pub change_member_role :
    Db → String → String → String → Role → Db × Result MembershipUpdate
unfolding may_change_role set_member_role as_str participants
change_member_role db caller_id conversation_id member_id role =
    checked db (may_change_role db caller_id conversation_id member_id role) (λ _.
      written (set_member_role db conversation_id member_id (as_str role)) member_not_found (λ db'.
        update conversation_id caller_id (participants db' conversation_id)
          (role_changed member_id role)))

unfoldable pub may_transfer : Db → String → String → String → Result String
unfolding require_group_role ensure member_role
may_transfer db caller_id conversation_id target_id = do
  actor_role ← require_group_role db conversation_id caller_id
  ensure actor_role transfer_ownership
  require (not (same target_id caller_id)) (invalid "user_id" invalid_format "不能把群主转让给自己")
  ok_or (member_role db conversation_id target_id) member_not_found

unfoldable pub transfer_group_ownership :
    Db → String → String → String → Db × Result MembershipUpdate
unfolding may_transfer Members.transfer_ownership participants
transfer_group_ownership db caller_id conversation_id target_id =
    checked db (may_transfer db caller_id conversation_id target_id) (λ _.
      written (Members.transfer_ownership db conversation_id caller_id target_id) member_not_found
        (λ db'.
          update conversation_id caller_id (participants db' conversation_id)
            (ownership_transferred caller_id target_id)))

unfoldable pub may_dissolve : Db → String → String → Result (Unit {0})
unfolding require_group_role ensure
may_dissolve db caller_id conversation_id = do
  role ← require_group_role db conversation_id caller_id
  ensure role Permission.dissolve

-- The audience is read before the rows are gone.
unfoldable pub dissolve_group : Db → String → String → Db × Result MembershipUpdate
unfolding may_dissolve dissolve participants
dissolve_group db caller_id conversation_id =
    checked db (may_dissolve db caller_id conversation_id) (λ _.
      written (dissolve db conversation_id) conversation_not_found
        (λ _. update conversation_id caller_id (participants db conversation_id) dissolved))
