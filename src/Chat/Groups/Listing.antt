-- ===== src/Chat/Groups/Listing.antt =====
-- backend/crates/chat/src/repository.rs, `list_members`: the Participants of a Conversation in order.
use jiuyue.Base.{
  if◌then◌else◌, String, Bool, true, false, not, ◌&&◌, ◌||◌, Option, none, some, List, [], ◌∷◌,
  text_key, nat_key,
}
use jiuyue.Base.Map.{Map}
use jiuyue.Base.Int.{ltb_ℤ}
use Prim.Native.Nat.{Ordering}
use Prim.Native.String.{compare}
use jiuyue.Contract.{from_stored, MemberView}
use jiuyue.Chat.Store.{MemberKey, member_key, Member, PeerRow, same}
use jiuyue.Chat.Store.Creation.{find_user}

abbrev pub view_of : Member → PeerRow → MemberView
view_of m u = record {
  user_id = u.id;
  username = u.username;
  display_name = u.display_name;
  avatar_url = u.avatar_url;
  role = from_stored m.role;
  joined_at_ms = m.joined_at_ms;
}

abbrev pub with_view :
    Option PeerRow → Member → List (Member × MemberView) → List (Member × MemberView)
with_view none m rest = rest
with_view (some u) m rest = (m, view_of m u) ∷ rest

-- The rows of one Conversation, joined with their Users.
unfoldable members_with_users :
    List PeerRow → String → Map MemberKey Member → List (Member × MemberView)
unfolding find_user from_stored
members_with_users users id [] = []
members_with_users users id ((k, m) ∷ ms) =
    let rest = members_with_users users id ms in
    if same k.conversation_id id
    then with_view (find_user (λ u. same u.id k.user_id) users) m rest
    else rest

abbrev is_less : Ordering → Bool
is_less Ordering.lt = true
is_less Ordering.eq = false
is_less Ordering.gt = false

-- `ORDER BY m.joined_at, m.user_id`. Ids are ULIDs by a CHECK, so texts are in the order of their
-- characters.
abbrev stands_before : Member × MemberView → Member × MemberView → Bool
stands_before (m, v) (n, w) =
    ltb_ℤ m.joined_at_ms n.joined_at_ms
    || (not (ltb_ℤ n.joined_at_ms m.joined_at_ms) && is_less (compare v.user_id w.user_id))

unfoldable insert_member :
    Member × MemberView → List (Member × MemberView) → List (Member × MemberView)
insert_member e [] = e ∷ []
insert_member e (x ∷ xs) =
    let rest = insert_member e xs in if stands_before x e then x ∷ rest else e ∷ x ∷ xs

unfoldable order_members : List (Member × MemberView) → List (Member × MemberView)
unfolding insert_member
order_members [] = []
order_members (e ∷ es) = insert_member e (order_members es)

unfoldable pub list_members :
    List PeerRow → String → Map MemberKey Member → List (Member × MemberView)
unfolding members_with_users order_members
list_members users id members = order_members (members_with_users users id members)
