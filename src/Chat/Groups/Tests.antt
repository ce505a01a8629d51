-- ===== src/Chat/Groups/Tests.antt =====
-- A group of an owner, an admin and a member.
use jiuyue.Base.{
  text_discrete, String, ◌≡◌, refl, ◌≢◌, true, none, some, [], ◌∷◌, text_key, nat_key, subst, arith,
}
use jiuyue.Base.Map.{retain, lookup, insert, remove}
use jiuyue.Contract.{admin, as_str, from_stored, removed, ownership_transferred}
use jiuyue.Chat.Errors.{owner_cannot_leave, ok, err}
use jiuyue.Chat.Ident.{is_ulid, is_crockford}
use jiuyue.Chat.Permission.{
  may_remove, ensure, ensure_remove, ensure_leave, may, may_leave, refuse, describe,
}
use jiuyue.Chat.Store.{Conversation, member_key, MemberKey-discrete, Member, Db, key, participants}
use jiuyue.Chat.Store.Members
use jiuyue.Chat.Store.Members.{
  member_role, remove_member, set_member_role, demote_owner, promote_owner, dissolve, member_count,
}
use jiuyue.Chat.Groups.{
  MembershipUpdate, update, require_group_role, may_remove_member, remove_group_member,
  may_leave_group, leave_group, may_change_role, change_member_role, may_transfer,
  transfer_group_ownership, may_dissolve, dissolve_group, pos,
}
use jiuyue.Chat.Groups.Owners.{owners}
use jiuyue.Chat.Groups.Operations.{IsValid}
use jiuyue.Chat.Groups.Steps.{change_owner, step, step-IsValid}
use jiuyue.Chat.Groups.Outcomes.{remove_group_member-Removed, transfer_group_ownership-Transferred}
use jiuyue.Base.Int.{pos}

program : Unit {0}
unfolding lookup insert remove retain text_discrete MemberKey-discrete participants is_ulid
    is_crockford may_remove ensure ensure_remove ensure_leave may may_leave refuse describe as_str
    from_stored member_role remove_member set_member_role demote_owner promote_owner
    Members.transfer_ownership dissolve member_count require_group_role may_remove_member
    remove_group_member may_leave_group leave_group may_change_role change_member_role may_transfer
    transfer_group_ownership may_dissolve dissolve_group
program = tt

abbrev room : String
room = "01ARZ3NDEKTSV4RRFFQ69G5FAV"

abbrev row : String → Member
row role = record {
  role = role;
  joined_at_ms = pos 0;
  read_marker_seq = 0;
  read_receipt_seq = 0;
  unread_count = 0;
}

abbrev team : Db
team = record {
  users = [];
  conversations =
      (
        room,
        record {
          kind = "group";
          title = none;
          announcement = none;
          created_at_ms = pos 0;
          next_seq = 0;
        },
      )
      ∷ [];
  members =
      (key room "ann", row "owner")
      ∷ (key room "bob", row "admin")
      ∷ (key room "cal", row "member")
      ∷ [];
  messages = [];
}

roles_decide :
    ((remove_group_member team "bob" room "cal").1
      ≡ ok (update room "bob" ("ann" ∷ "bob" ∷ "cal" ∷ []) (removed "cal")))
    × ((remove_group_member team "cal" room "bob").0 ≡ team)
    × (leave_group team "ann" room ≡ (team, err owner_cannot_leave))
    × (participants (change_member_role team "ann" room "cal" admin).0 room
        ≡ "ann" ∷ "bob" ∷ "cal" ∷ [])
    × (participants (dissolve_group team "ann" room).0 room ≡ [])
unfolding program
roles_decide = (refl, refl, refl, refl, refl)

room_owner : owners room team.members ≡ 1
unfolding program
room_owner = refl

team_owner :
    (id : String) (c : Conversation)
    → lookup id team.conversations ≡ some c
    → owners id team.members ≡ 1
unfolding lookup
team_owner id c found = elim (text_discrete room id) [
  | yes p ↦ subst (λ i. owners i team.members ≡ 1) p room_owner
  | no p ↦ absurd (ground (arith, found))
]

team_only : (id : String) → lookup id team.conversations ≡ none → owners id team.members ≡ 0
unfolding lookup
team_only id missing = elim (text_discrete room id) [
  | yes p ↦ absurd (ground (arith, missing))
  | no p ↦ ground (arith, p)
]

team-IsValid : IsValid team
unfolding program
team-IsValid = record {
  distinct = (refl, (refl, (refl, tt)));
  owned = λ id c found group. team_owner id c found;
  absent = team_only;
}

step-IsValid_example : IsValid (step (λ s. s) team (change_owner "ann" room "bob"))
step-IsValid_example = step-IsValid (λ s. s) team (change_owner "ann" room "bob") team-IsValid

abbrev cal_is_out : MembershipUpdate
cal_is_out = update room "bob" ("ann" ∷ "bob" ∷ "cal" ∷ []) (removed "cal")

remove_group_member-Removed_example :
    ((actor target : String) × (member_role team room "bob" ≡ some actor)
      × (member_role team room "cal" ≡ some target)
      × (may_remove (from_stored actor) (from_stored target) ≡ true))
    × (lookup (key room "cal") (remove_group_member team "bob" room "cal").0.members ≡ none)
unfolding program
remove_group_member-Removed_example =
    remove_group_member-Removed team "bob" room "cal" cal_is_out (key room "cal") refl

abbrev bob_owns : MembershipUpdate
bob_owns = update room "ann" ("ann" ∷ "bob" ∷ "cal" ∷ []) (ownership_transferred "ann" "bob")

transfer_group_ownership-Transferred_example :
    (member_role team room "ann" ≡ some "owner")
    × (member_role (transfer_group_ownership team "ann" room "bob").0 room "bob" ≡ some "owner")
    × (member_role (transfer_group_ownership team "ann" room "bob").0 room "ann" ≡ some "admin")
    × (key room "ann" ≢ key room "cal"
        → key room "bob" ≢ key room "cal"
        → lookup (key room "cal") (transfer_group_ownership team "ann" room "bob").0.members
          ≡ lookup (key room "cal") team.members)
unfolding program
transfer_group_ownership-Transferred_example =
    transfer_group_ownership-Transferred team "ann" room "bob" bob_owns (key room "cal") refl
