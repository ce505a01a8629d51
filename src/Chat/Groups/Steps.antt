-- ===== src/Chat/Groups/Steps.antt =====
-- Every operation on a group leaves it with exactly one owner, or gone.
use jiuyue.Base.{String, ◌≡◌, refl, sym, subst, ◌⊎◌, inl, inr, Option, List}
use jiuyue.Base.Int.{ℤ}
use jiuyue.Contract.{Role, as_str}
use jiuyue.Chat.Store.{PeerRow, Db}
use jiuyue.Chat.Store.Creation.{create_group_with_members, set_announcement}
use jiuyue.Chat.Groups.{
  remove_group_member, leave_group, change_member_role, transfer_group_ownership, dissolve_group,
}
use jiuyue.Chat.Groups.Inviting.{create_group, validate_group, ids}
use jiuyue.Chat.Groups.Adding.{
  add_group_members, may_invite, invite_each, update_group_announcement, may_announce,
}
use jiuyue.Chat.Groups.Operations.{
  IsValid, remove_member-IsValid, set_member_role-IsValid, transfer_ownership-IsValid,
  dissolve-IsValid, remove_group_member-db, transfer_group_ownership-db, leave_group-db,
  dissolve_group-db, change_member_role-db,
}
use jiuyue.Chat.Groups.Created.{
  Result-cases, create_group_with_members-IsValid, invite_each-IsValid, set_announcement-IsValid,
}

-- The operations on groups.
pub data Call : Type 0 where
  remove_other change_owner : String → String → String → Call
  leave dissolve_all : String → String → Call
  change_role : String → String → String → Role → Call
  create : String → ℤ → String → String → List String → Call
  invite : ℤ → String → String → List String → Call
  announce : String → String → Option String → Call

abbrev pub step : (String → String) → Db → Call → Db
step to_lowercase db (remove_other caller id user) = (remove_group_member db caller id user).0
step to_lowercase db (change_owner caller id user) = (transfer_group_ownership db caller id user).0
step to_lowercase db (leave caller id) = (leave_group db caller id).0
step to_lowercase db (dissolve_all caller id) = (dissolve_group db caller id).0
step to_lowercase db (change_role caller id user role) =
    (change_member_role db caller id user role).0
step to_lowercase db (create id now caller title names) =
    (create_group to_lowercase id now db caller title names).0
step to_lowercase db (invite now caller id names) =
    (add_group_members to_lowercase now db caller id names).0
step to_lowercase db (announce caller id text) = (update_group_announcement db caller id text).0

create_group-db :
    (to_lowercase : String → String) (id : String) (now : ℤ) (db : Db) (caller title : String)
    (names : List String)
    → ((create_group to_lowercase id now db caller title names).0 ≡ db)
      ⊎ ((trimmed : String) × (members : List PeerRow) × ((create_group to_lowercase id now db
              caller title names).0
            ≡ (create_group_with_members db id trimmed caller (ids members) now).0))
unfolding create_group
create_group-db to_lowercase id now db caller title names =
    elim (Result-cases (validate_group to_lowercase db caller title names)) [
      | inl (e, bad) ↦ inl (rw (bad, create_group) refl)
      | inr ((trimmed, members), good) ↦ inr (trimmed, members, rw (good, create_group) refl)
    ]

add_group_members-db :
    (to_lowercase : String → String) (now : ℤ) (db : Db) (caller id : String) (names : List String)
    → ((add_group_members to_lowercase now db caller id names).0 ≡ db)
      ⊎ ((invited : List PeerRow) × ((add_group_members to_lowercase now db caller id names).0
            ≡ (invite_each db id invited now).0))
unfolding add_group_members
add_group_members-db to_lowercase now db caller id names =
    elim (Result-cases (may_invite to_lowercase db caller id names)) [
      | inl (e, bad) ↦ inl (rw (bad, add_group_members) refl)
      | inr ((c, invited), good) ↦ inr (invited, rw (good, add_group_members) refl)
    ]

update_group_announcement-db :
    (db : Db) (caller id : String) (text : Option String)
    → ((update_group_announcement db caller id text).0 ≡ db)
      ⊎ ((announcement : Option String) × ((update_group_announcement db caller id text).0
            ≡ (set_announcement db id announcement).0))
unfolding update_group_announcement
update_group_announcement-db db caller id text =
    elim (Result-cases (may_announce db caller id text)) [
      | inl (e, bad) ↦ inl (rw (bad, update_group_announcement) refl)
      | inr ((c, announcement), good) ↦
          inr (announcement, rw (good, update_group_announcement) refl)
    ]

-- Each operation, whoever calls it and whether it succeeds or not, leaves every group with exactly
-- one owner, if there was one row for each member, one owner in each group and no owner of anything else
-- before: creating, inviting, removing, leaving, changing a role, handing over, dissolving and
-- announcing.
pub step-IsValid :
    (to_lowercase : String → String) (db : Db) (k : Call)
    → IsValid db
    → IsValid (step to_lowercase db k)
step-IsValid to_lowercase db (remove_other caller id user) v =
    elim (remove_group_member-db db caller id user) [
      | inl e ↦ subst IsValid (sym e) v
      | inr e ↦ subst IsValid (sym e) (remove_member-IsValid db id user v)
    ]
step-IsValid to_lowercase db (change_owner caller id user) v =
    elim (transfer_group_ownership-db db caller id user) [
      | inl e ↦ subst IsValid (sym e) v
      | inr e ↦ subst IsValid (sym e) (transfer_ownership-IsValid db id caller user v)
    ]
step-IsValid to_lowercase db (leave caller id) v = elim (leave_group-db db caller id) [
  | inl e ↦ subst IsValid (sym e) v
  | inr (inl e) ↦ subst IsValid (sym e) (dissolve-IsValid db id v)
  | inr (inr e) ↦ subst IsValid (sym e) (remove_member-IsValid db id caller v)
]
step-IsValid to_lowercase db (dissolve_all caller id) v = elim (dissolve_group-db db caller id) [
  | inl e ↦ subst IsValid (sym e) v
  | inr e ↦ subst IsValid (sym e) (dissolve-IsValid db id v)
]
step-IsValid to_lowercase db (change_role caller id user role) v =
    elim (change_member_role-db db caller id user role) [
      | inl e ↦ subst IsValid (sym e) v
      | inr (plain, e) ↦
          subst IsValid (sym e) (set_member_role-IsValid db id user (as_str role) plain v)
    ]
step-IsValid to_lowercase db (create id now caller title names) v =
    elim (create_group-db to_lowercase id now db caller title names) [
      | inl e ↦ subst IsValid (sym e) v
      | inr (trimmed, members, e) ↦
          subst IsValid (sym e)
            (create_group_with_members-IsValid db id trimmed caller (ids members) now v)
    ]
step-IsValid to_lowercase db (invite now caller id names) v =
    elim (add_group_members-db to_lowercase now db caller id names) [
      | inl e ↦ subst IsValid (sym e) v
      | inr (invited, e) ↦ subst IsValid (sym e) (invite_each-IsValid invited db id now v)
    ]
step-IsValid to_lowercase db (announce caller id text) v =
    elim (update_group_announcement-db db caller id text) [
      | inl e ↦ subst IsValid (sym e) v
      | inr (announcement, e) ↦
          subst IsValid (sym e) (set_announcement-IsValid db id announcement v)
    ]
