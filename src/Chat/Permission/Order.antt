-- ===== src/Chat/Permission/Order.antt =====
-- The table read as an order of the roles.
use jiuyue.Base.{ltb, ℕ, ◌≤◌, ◌≡◌, true, ◌&&◌, arith}
use jiuyue.Contract.{Role, owner, admin, member}
use jiuyue.Chat.Permission.{Capability, remove_members, may, may_remove}

-- Owner above admin above member.
abbrev rank : Role → ℕ
rank owner = 2
rank admin = 1
rank member = 0

-- The table only grows with the role: whoever ranks at least as high may do at least as much.
may_mono :
    (low high : Role) (c : Capability) → rank low ≤ rank high → may low c ≡ true → may high c ≡ true
unfolding may
may_mono low high c h allowed = ground arith

-- A Participant may be removed exactly by somebody who ranks above them and may remove at all.
may_remove_iff_rank :
    (actor target : Role)
    → may_remove actor target ≡ (may actor remove_members && ltb (rank target) (rank actor))
unfolding may_remove may
may_remove_iff_rank actor target = ground arith
