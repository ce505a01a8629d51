-- ===== src/Chat/Groups/Operations.antt =====
-- The owner of a group under the operations that take members out or move roles.
use jiuyue.Base.{
  Bool-cases, String, ◌≡◌, sym, ap, ◌∙◌, inl, inr, true, false, some, text_key, nat_key, arith,
  text_discrete, subst, ◌⊎◌, ◌⊎◌, none, ℕ, ◌≤◌, ◌≤◌, not,
}
use jiuyue.Base.Map.{lookup, contains_key, Distinct, retain-Distinct, kept, lookup-remove, retain}
use jiuyue.Contract.{Role, owner, admin, member, as_str}
use jiuyue.Chat.Errors.{ok}
use jiuyue.Chat.Store.{Conversation, member_key, Db, same}
use jiuyue.Chat.Store.Members
use jiuyue.Chat.Store.Members.{remove_member, set_member_role, dissolve}
use jiuyue.Chat.Groups.{
  remove_group_member, leave_group, may_change_role, change_member_role, transfer_group_ownership,
  dissolve_group,
}
use jiuyue.Chat.Groups.Owners.{
  plain_roles, owners, owners-retain, remove_member-owners, set_member_role-owners,
  transfer_ownership-owners, transfer_ownership-Distinct, owners-retain_self,
}

-- One row for each member, exactly one owner in each group, and none where there is nothing.
pub record IsValid (db : Db) : Type 0 where
  pub distinct : Distinct db.members
  pub owned :
      (id : String) (c : Conversation)
      → lookup id db.conversations ≡ some c
      → same c.kind "group" ≡ true
      → owners id db.members ≡ 1
  pub absent : (id : String) → lookup id db.conversations ≡ none → owners id db.members ≡ 0

pub members_kept :
    (db db' : Db)
    → IsValid db
    → db'.conversations ≡ db.conversations
    → Distinct db'.members
    → ((id : String) (n : ℕ) → n ≤ 1 → owners id db.members ≡ n → owners id db'.members ≡ n)
    → IsValid db'
members_kept db db' v c d kept = record {
  distinct = d;
  owned = λ id conversation found group.
      kept id 1 (omega arith) (v.owned id conversation (ap (lookup id) (sym c) ∙ found) group);
  absent = λ id missing. kept id 0 (omega arith) (v.absent id (ap (lookup id) (sym c) ∙ missing));
}

pub remove_member-IsValid :
    (db : Db) (id user : String) → IsValid db → IsValid (remove_member db id user).0
unfolding remove_member
remove_member-IsValid db id user v =
    members_kept db (remove_member db id user).0 v (ground arith)
      (remove_member-owners db id user id v.distinct).0
      (λ other n small count. (remove_member-owners db id user other v.distinct).1 ∙ count)

pub set_member_role-IsValid :
    (db : Db) (id user role : String)
    → same role "owner" ≡ false
    → IsValid db
    → IsValid (set_member_role db id user role).0
unfolding set_member_role
set_member_role-IsValid db id user role plain v =
    members_kept db (set_member_role db id user role).0 v (ground arith)
      (set_member_role-owners db id user role id plain v.distinct).0
      (λ other n small count.
        (set_member_role-owners db id user role other plain v.distinct).1 ∙ count)

pub transfer_ownership-IsValid :
    (db : Db) (id from to : String)
    → IsValid db
    → IsValid (Members.transfer_ownership db id from to).0
unfolding Members.transfer_ownership
transfer_ownership-IsValid db id from to v =
    elim (Bool-cases (Members.transfer_ownership db id from to).1) [
      | inl done ↦
          members_kept db (Members.transfer_ownership db id from to).0 v (ground arith)
            (transfer_ownership-Distinct db id from to done v.distinct)
            (λ other n small count.
              transfer_ownership-owners db id from to other n done small count)
      | inr undone ↦
          let unchanged : db ≡ (Members.transfer_ownership db id from to).0 =
            ground (arith, undone) in
          subst IsValid unchanged v
    ]

pub dissolve-IsValid : (db : Db) (gone : String) → IsValid db → IsValid (dissolve db gone).0
unfolding dissolve
dissolve-IsValid db gone v = elim (Bool-cases (contains_key gone db.conversations)) [
  | inr absent ↦ rw (absent, dissolve) v
  | inl here ↦
      rw (here, dissolve)
        (record {
          distinct = retain-Distinct _ db.members v.distinct;
          owned = λ id c found group. elim (text_discrete gone id) [
            | yes p ↦ absurd (ground (arith, found, lookup-remove gone id db.conversations))
            | no p ↦
                owners-retain id gone db.members p
                ∙ v.owned id c (ground (arith, found, lookup-remove gone id db.conversations)) group
          ];
          absent = λ id missing. elim (text_discrete gone id) [
            | yes p ↦
                subst
                  (λ i. owners i (retain (λ k _. not (same k.conversation_id gone)) db.members) ≡ 0)
                  p (owners-retain_self gone db.members)
            | no p ↦
                owners-retain id gone db.members p
                ∙ v.absent id (ground (arith, missing, lookup-remove gone id db.conversations))
          ];
        })
]

may_change_role-plain :
    (db : Db) (caller id user : String) (role : Role) (a : Unit {0})
    → may_change_role db caller id user role ≡ ok a
    → same (as_str role) "owner" ≡ false
unfolding may_change_role as_str
may_change_role-plain db caller id user owner a h = absurd (ground (arith, h))
may_change_role-plain db caller id user admin a h = plain_roles.1
may_change_role-plain db caller id user member a h = plain_roles.2

-- What an operation leaves is what it found, or what its one write leaves behind its checks.
pub remove_group_member-db :
    (db : Db) (caller id user : String)
    → ((remove_group_member db caller id user).0 ≡ db)
      ⊎ ((remove_group_member db caller id user).0 ≡ (remove_member db id user).0)
unfolding remove_group_member
remove_group_member-db db caller id user = ground arith

pub transfer_group_ownership-db :
    (db : Db) (caller id user : String)
    → ((transfer_group_ownership db caller id user).0 ≡ db)
      ⊎ ((transfer_group_ownership db caller id user).0
          ≡ (Members.transfer_ownership db id caller user).0)
unfolding transfer_group_ownership
transfer_group_ownership-db db caller id user = ground arith

pub leave_group-db :
    (db : Db) (caller id : String)
    → ((leave_group db caller id).0 ≡ db)
      ⊎ ((leave_group db caller id).0 ≡ (dissolve db id).0)
      ⊎ ((leave_group db caller id).0 ≡ (remove_member db id caller).0)
unfolding leave_group
leave_group-db db caller id = ground arith

pub dissolve_group-db :
    (db : Db) (caller id : String)
    → ((dissolve_group db caller id).0 ≡ db)
      ⊎ ((dissolve_group db caller id).0 ≡ (dissolve db id).0)
unfolding dissolve_group
dissolve_group-db db caller id = ground arith

pub change_member_role-db :
    (db : Db) (caller id user : String) (role : Role)
    → ((change_member_role db caller id user role).0 ≡ db)
      ⊎ ((same (as_str role) "owner" ≡ false)
          × ((change_member_role db caller id user role).0
              ≡ (set_member_role db id user (as_str role)).0))
unfolding change_member_role
change_member_role-db db caller id user role =
    ground (arith, may_change_role-plain db caller id user role tt)
