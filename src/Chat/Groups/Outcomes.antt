-- ===== src/Chat/Groups/Outcomes.antt =====
-- What an operation that succeeds has checked, and what it leaves in each row.
use jiuyue.Base.{
  Option-cases, String, ◌≡◌, ap, ◌∙◌, ◌≢◌, inl, inr, ite, true, false, none, some, arith, text_key,
  nat_key,
}
use jiuyue.Base.Map.{lookup, remove, lookup-insert, lookup-remove}
use jiuyue.Contract.{from_stored}
use jiuyue.Chat.Errors.{ok}
use jiuyue.Chat.Permission.{may_remove, ensure_remove}
use jiuyue.Chat.Store.{MemberKey, member_key, MemberKey-discrete, Db, same, key}
use jiuyue.Chat.Store.Members
use jiuyue.Chat.Store.Members.{member_role, remove_member, is_owner_row}
use jiuyue.Chat.Groups.{
  MembershipUpdate, require_group_role, may_remove_member, remove_group_member, may_transfer,
  transfer_group_ownership,
}
use jiuyue.Chat.Groups.Owners.{transferred, with_role}

removal_checked :
    (db : Db) (caller id user : String) (a : Unit {0})
    → may_remove_member db caller id user ≡ ok a
    → (actor target : String) × (member_role db id caller ≡ some actor)
      × (member_role db id user ≡ some target)
      × (may_remove (from_stored actor) (from_stored target) ≡ true)
unfolding may_remove_member require_group_role ensure_remove
removal_checked db caller id user a h = elim (Option-cases (member_role db id caller)) [
  | inl e ↦ absurd (ground (arith, e, h))
  | inr (actor, e) ↦ elim (Option-cases (member_role db id user)) [
    | inl e' ↦ absurd (ground (arith, e, e', h))
    | inr (target, e') ↦ (actor, target, e, e', ground (arith, e, e', h))
  ]
]

removal_written :
    (db : Db) (caller id user : String) (u : MembershipUpdate)
    → (remove_group_member db caller id user).1 ≡ ok u
    → (may_remove_member db caller id user ≡ ok tt)
      × ((remove_group_member db caller id user).0.members ≡ remove (key id user) db.members)
unfolding remove_group_member remove_member
removal_written db caller id user u h = (ground (arith, h), ground (arith, h))

-- A removal that succeeds was made by a member whose role may remove the role of the one removed;
-- it takes that row out and leaves every other as it was.
pub remove_group_member-Removed :
    (db : Db) (caller id user : String) (u : MembershipUpdate) (k : MemberKey)
    → (remove_group_member db caller id user).1 ≡ ok u
    → ((actor target : String) × (member_role db id caller ≡ some actor)
        × (member_role db id user ≡ some target)
        × (may_remove (from_stored actor) (from_stored target) ≡ true))
      × (lookup k (remove_group_member db caller id user).0.members
          ≡ ite (MemberKey-discrete (key id user) k) none (lookup k db.members))
remove_group_member-Removed db caller id user u k h =
    let (allowed, rows) = removal_written db caller id user u h in
    (
      removal_checked db caller id user tt allowed,
      ap (lookup k) rows ∙ lookup-remove (key id user) k db.members,
    )

transfer_written :
    (db : Db) (caller id target : String) (u : MembershipUpdate)
    → (transfer_group_ownership db caller id target).1 ≡ ok u
    → (same target caller ≡ false)
      × ((Members.transfer_ownership db id caller target).1 ≡ true)
      × ((transfer_group_ownership db caller id target).0
          ≡ (Members.transfer_ownership db id caller target).0)
unfolding transfer_group_ownership may_transfer
transfer_written db caller id target u h = (ground (arith, h), ground (arith, h), ground (arith, h))

-- A transfer that succeeds was made by the owner: it makes the target the owner and the caller an
-- admin, and leaves every other row as it was.
pub transfer_group_ownership-Transferred :
    (db : Db) (caller id target : String) (u : MembershipUpdate) (k : MemberKey)
    → (transfer_group_ownership db caller id target).1 ≡ ok u
    → (member_role db id caller ≡ some "owner")
      × (member_role (transfer_group_ownership db caller id target).0 id target ≡ some "owner")
      × (member_role (transfer_group_ownership db caller id target).0 id caller ≡ some "admin")
      × (key id caller ≢ k
          → key id target ≢ k
          → lookup k (transfer_group_ownership db caller id target).0.members ≡ lookup k db.members)
unfolding member_role
transfer_group_ownership-Transferred db caller id target u k h =
    let (ne, done, same_db) = transfer_written db caller id target u h in
    let t = transferred db id caller target done in
    let m = with_role t.old_owner "admin" in
    let m' = with_role t.new_owner "owner" in
    let at : (j : MemberKey)
        → lookup j (transfer_group_ownership db caller id target).0.members
          ≡ ite (MemberKey-discrete (key id target) j) (some m')
              (ite (MemberKey-discrete (key id caller) j) (some m) (lookup j db.members)) =
      λ j.
        ap (λ d. lookup j d.members) same_db
        ∙ ap (lookup j) t.rows
        ∙ lookup-insert (key id target) j m' t.demoted
        ∙ ap (λ o. ite (MemberKey-discrete (key id target) j) (some m') o)
            (ap (lookup j) t.demoted_rows ∙ lookup-insert (key id caller) j m db.members) in
    (
      ground (arith, t),
      ground (arith, at (key id target)),
      ground (arith, at (key id caller), ne),
      λ p q. ground (arith, at k),
    )
