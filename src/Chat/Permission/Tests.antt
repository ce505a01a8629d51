-- ===== src/Chat/Permission/Tests.antt =====
-- The decision table at concrete roles.
use jiuyue.Base.{◌≡◌, refl}
use jiuyue.Base.Int.{pos}
use jiuyue.Contract.{owner, admin, member}
use jiuyue.Chat.Errors.{err, not_permitted, owner_cannot_leave}
use jiuyue.Chat.Permission.{dissolve, ensure, ensure_remove, ensure_leave}

refusals_carry_the_action :
    (ensure member dissolve ≡ err (not_permitted "解散群聊"))
    × (ensure_remove admin owner ≡ err (not_permitted "移除成员"))
    × (ensure_leave owner (pos 1) ≡ err owner_cannot_leave)
unfolding ensure ensure_remove ensure_leave
refusals_carry_the_action = (refl, refl, refl)
