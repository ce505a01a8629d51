-- ===== src/Contract/Group.antt =====
-- backend/crates/contract/src/group.rs: roles and membership changes of a group.
use jiuyue.Base.{String, Option, ℕ, text_discrete, ite}
use jiuyue.Base.Int.{ℤ}

pub data Role : Type 0 where
  owner admin member : Role

pub Role-discrete : Discrete Role
Role-discrete = hlevel

-- `Role::as_str`.
unfoldable pub as_str : Role → String
as_str owner = "owner"
as_str admin = "admin"
as_str member = "member"

-- `Role::from_stored`: an unknown value is the least privileged role.
unfoldable pub from_stored : String → Role
unfolding text_discrete
from_stored value =
    ite (text_discrete value "owner") owner (ite (text_discrete value "admin") admin member)

abbrev pub max_group_members : ℕ
max_group_members = 500

abbrev pub min_group_members : ℕ
min_group_members = 3

abbrev pub max_group_title_chars : ℕ
max_group_title_chars = 100

abbrev pub max_announcement_chars : ℕ
max_announcement_chars = 2000

pub record MemberView : Type 0 where
  pub user_id : String
  pub username : String
  pub display_name : String
  pub avatar_url : Option String
  pub role : Role
  pub joined_at_ms : ℤ

pub record GroupSummary : Type 0 where
  pub title : String
  pub member_count : ℤ
  pub my_role : Role
  pub announcement : Option String

pub data MembershipChange : Type 0 where
  joined : MemberView → MembershipChange
  left : String → MembershipChange
  removed : String → MembershipChange
  role_changed : String → Role → MembershipChange
  ownership_transferred : String → String → MembershipChange
  dissolved : MembershipChange

pub record MembershipChanged : Type 0 where
  pub conversation_id : String
  pub actor_id : String
  pub change : MembershipChange
