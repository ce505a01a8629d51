-- ===== src/Chat/Permission.antt =====
-- backend/crates/chat/src/permission.rs: the one table of what a role may do in a group.
pub mod Order
pub mod Tests
use jiuyue.Base.{◌-◌, ◌/◌, String, Bool, true, false, not, ◌||◌}
use jiuyue.Base.Int.{ℤ, pos, leb_ℤ}
use jiuyue.Contract.{Role, owner, admin, member, Role-discrete}
use jiuyue.Chat.Errors.{ChatError, not_permitted, owner_cannot_leave, Result, ok, err, require}

pub data Capability : Type 0 where
  view_members post_message invite_members remove_members change_roles : Capability
  transfer_ownership dissolve edit_group_info leave : Capability

unfoldable pub describe : Capability → String
describe view_members = "查看成员列表"
describe post_message = "发送消息"
describe invite_members = "邀请成员"
describe remove_members = "移除成员"
describe change_roles = "设置成员角色"
describe transfer_ownership = "转让群主"
describe dissolve = "解散群聊"
describe edit_group_info = "编辑群资料"
describe leave = "退出群聊"

abbrev pub is_owner : Role → Bool
is_owner owner = true
is_owner _ = false

abbrev is_owner_or_admin : Role → Bool
is_owner_or_admin owner = true
is_owner_or_admin admin = true
is_owner_or_admin member = false

unfoldable pub may : Role → Capability → Bool
may role view_members = true
may role post_message = true
may role leave = true
may role invite_members = is_owner_or_admin role
may role remove_members = is_owner_or_admin role
may role edit_group_info = is_owner_or_admin role
may role change_roles = is_owner role
may role transfer_ownership = is_owner role
may role dissolve = is_owner role

unfoldable pub refuse : Capability → ChatError
unfolding describe
refuse capability = not_permitted (describe capability)

unfoldable pub ensure : Role → Capability → Result (Unit {0})
unfolding may refuse
ensure role capability = require (may role capability) (refuse capability)

abbrev is_member : Role → Bool
is_member member = true
is_member _ = false

unfoldable pub may_remove : Role → Role → Bool
may_remove owner target = not (is_owner target)
may_remove admin target = is_member target
may_remove member target = false

unfoldable pub ensure_remove : Role → Role → Result (Unit {0})
unfolding may_remove refuse
ensure_remove actor target = require (may_remove actor target) (refuse remove_members)

unfoldable pub may_leave : Role → ℤ → Bool
may_leave role others_remaining = not (is_owner role) || leb_ℤ others_remaining (pos 0)

unfoldable pub ensure_leave : Role → ℤ → Result (Unit {0})
unfolding may_leave
ensure_leave role others_remaining = require (may_leave role others_remaining) owner_cannot_leave
