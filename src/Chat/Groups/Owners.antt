-- ===== src/Chat/Groups/Owners.antt =====
-- How many owners a Conversation has, and what each statement on the members does to that.
use jiuyue.Base.{
  if◌then◌else◌, Bool-cases, Option-cases, ℕ, ◌+◌, String, ◌≡◌, refl, ◌≢◌, inl, inr, false, not,
  ◌&&◌, some, [], ◌∷◌, arith, text_key, nat_key, ◌≤◌, true, ◌≤◌, text_discrete, subst, sym, none,
}
use jiuyue.Base.Map.{
  Map, retain, lookup, insert, remove, Distinct, remove_absent, insert-Distinct, remove-Distinct,
  kept,
}
use jiuyue.Chat.Store.{MemberKey, member_key, Member, Db, same, key}
use jiuyue.Chat.Store.Members.{
  is_owner_row, remove_member, set_member_role, transfer_ownership, demote_owner, promote_owner,
}

-- Only the owner's role reads as the owner's.
pub plain_roles :
    (same "owner" "owner" ≡ true) × (same "admin" "owner" ≡ false) × (same "member" "owner" ≡ false)
unfolding text_discrete
plain_roles = (refl, refl, refl)

abbrev pub weight : String → MemberKey → Member → ℕ
weight id k m = if same k.conversation_id id && is_owner_row m then 1 else 0

abbrev pub owners : String → Map MemberKey Member → ℕ
owners id [] = 0
owners id ((k, m) ∷ ms) = weight id k m + owners id ms

pub owners-insert :
    (id : String) (k : MemberKey) (m m' : Member) (ms : Map MemberKey Member)
    → lookup k ms ≡ some m
    → owners id (insert k m' ms) + weight id k m ≡ owners id ms + weight id k m'
unfolding lookup insert
owners-insert id k m m' [] h = cc
owners-insert id k m m' ((j, w) ∷ ms) h = ground (arith, owners-insert id k m m' ms)

pub owners-remove :
    (id : String) (k : MemberKey) (m : Member) (ms : Map MemberKey Member)
    → Distinct ms
    → lookup k ms ≡ some m
    → owners id (remove k ms) + weight id k m ≡ owners id ms
unfolding lookup remove
owners-remove id k m [] d h = cc
owners-remove id k m ((j, w) ∷ ms) d h =
    ground (arith, owners-remove id k m ms d.1, remove_absent k ms)

pub owners-retain :
    (id gone : String) (ms : Map MemberKey Member)
    → gone ≢ id
    → owners id (retain (λ k _. not (same k.conversation_id gone)) ms) ≡ owners id ms
unfolding retain
owners-retain id gone [] h = refl
owners-retain id gone ((j, w) ∷ ms) h = ground (arith, owners-retain id gone ms h)

pub owners-retain_self :
    (gone : String) (ms : Map MemberKey Member)
    → owners gone (retain (λ k _. not (same k.conversation_id gone)) ms) ≡ 0
unfolding retain
owners-retain_self gone [] = refl
owners-retain_self gone ((j, w) ∷ ms) = ground (arith, owners-retain_self gone ms)

pub owners-insert_new :
    (id : String) (k : MemberKey) (m : Member) (ms : Map MemberKey Member)
    → lookup k ms ≡ none
    → owners id (insert k m ms) ≡ owners id ms + weight id k m
unfolding lookup insert
owners-insert_new id k m [] h = omega arith
owners-insert_new id k m ((j, w) ∷ ms) h = ground (arith, owners-insert_new id k m ms)

-- What the statements need and keep: the primary key, and that no row but the owner's says so.
pub remove_member-owners :
    (db : Db) (conversation_id user_id id : String)
    → Distinct db.members
    → Distinct (remove_member db conversation_id user_id).0.members
      × (owners id (remove_member db conversation_id user_id).0.members ≡ owners id db.members)
unfolding remove_member
remove_member-owners db conversation_id user_id id d =
    elim (Option-cases (lookup (key conversation_id user_id) db.members)) [
      | inl e ↦ rw (e, remove_member) (d, refl)
      | inr (m, e) ↦ elim (Bool-cases (is_owner_row m)) [
        | inl kept ↦ rw (e, kept, remove_member) (d, refl)
        | inr other ↦
            rw (e, other, remove_member)
              (
                remove-Distinct (key conversation_id user_id) db.members d,
                ground
                    (arith, other, owners-remove id (key conversation_id user_id) m db.members d e),
              )
      ]
    ]

pub set_member_role-owners :
    (db : Db) (conversation_id user_id role id : String)
    → same role "owner" ≡ false
    → Distinct db.members
    → Distinct (set_member_role db conversation_id user_id role).0.members
      × (owners id (set_member_role db conversation_id user_id role).0.members
          ≡ owners id db.members)
unfolding set_member_role
set_member_role-owners db conversation_id user_id role id plain d =
    elim (Option-cases (lookup (key conversation_id user_id) db.members)) [
      | inl e ↦ rw (e, set_member_role) (d, refl)
      | inr (m, e) ↦ elim (Bool-cases (is_owner_row m)) [
        | inl kept ↦ rw (e, kept, set_member_role) (d, refl)
        | inr other ↦
            rw (e, other, set_member_role)
              (
                insert-Distinct (key conversation_id user_id) (record m { role = role }) db.members
                    d,
                ground (
                  arith,
                  plain,
                  other,
                  owners-insert id (key conversation_id user_id) m (record m { role = role })
                      db.members e,
                ),
              )
      ]
    ]

owner-counted :
    (id : String) (k : MemberKey) (m : Member) (ms : Map MemberKey Member)
    → lookup k ms ≡ some m
    → weight id k m ≤ owners id ms
unfolding lookup
owner-counted id k m [] h = cc
owner-counted id k m ((j, w) ∷ ms) h = ground (arith, owner-counted id k m ms)

abbrev pub with_role : Member → String → Member
with_role m role = record m { role = role }

-- The rows that a transfer which succeeds replaces, one after the other.
pub record Transferred (db : Db) (id from to : String) (ms : Map MemberKey Member) : Type 0 where
  pub old_owner : Member
  pub held : lookup (key id from) db.members ≡ some old_owner
  pub held_owner : is_owner_row old_owner ≡ true
  pub new_owner : Member
  pub demoted : Map MemberKey Member
  pub demoted_rows : demoted ≡ insert (key id from) (with_role old_owner "admin") db.members
  pub belongs : lookup (key id to) demoted ≡ some new_owner
  pub rows : ms ≡ insert (key id to) (with_role new_owner "owner") demoted

pub transferred :
    (db : Db) (id from to : String)
    → (transfer_ownership db id from to).1 ≡ true
    → Transferred db id from to (transfer_ownership db id from to).0.members
unfolding transfer_ownership demote_owner promote_owner
transferred db id from to h = elim (Option-cases (lookup (key id from) db.members)) [
  | inl e ↦ absurd (ground (arith, e, h))
  | inr (m, e) ↦ elim (Bool-cases (is_owner_row m)) [
    | inr other ↦ absurd (ground (arith, e, other, h))
    | inl held ↦
        let demoted = insert (key id from) (with_role m "admin") db.members in
        elim (Option-cases (lookup (key id to) demoted)) [
          | inl e' ↦ absurd (ground (arith, e, held, e', h))
          | inr (m', e') ↦ record {
            old_owner = m;
            held = e;
            held_owner = held;
            new_owner = m';
            demoted = demoted;
            demoted_rows = refl;
            belongs = e';
            rows = ground (arith, e, held, e');
          }
        ]
  ]
]

pub transfer_ownership-Distinct :
    (db : Db) (id from to : String)
    → (transfer_ownership db id from to).1 ≡ true
    → Distinct db.members
    → Distinct (transfer_ownership db id from to).0.members
transfer_ownership-Distinct db id from to h d =
    let t = transferred db id from to h in
    subst Distinct (sym t.rows) (
      insert-Distinct (key id to) (with_role t.new_owner "owner") t.demoted (
        subst Distinct (sym t.demoted_rows)
          (insert-Distinct (key id from) (with_role t.old_owner "admin") db.members d)))

pub transfer_ownership-owners :
    (db : Db) (conversation_id from to id : String) (n : ℕ)
    → (transfer_ownership db conversation_id from to).1 ≡ true
    → n ≤ 1
    → owners id db.members ≡ n
    → owners id (transfer_ownership db conversation_id from to).0.members ≡ n
transfer_ownership-owners db conversation_id from to id n h small count =
    let t = transferred db conversation_id from to h in
    ground (
      arith,
      t,
      count,
      small,
      plain_roles,
      owners-insert id (key conversation_id from) t.old_owner (with_role t.old_owner "admin")
          db.members t.held,
      owner-counted id (key conversation_id from) t.old_owner db.members t.held,
      owners-insert id (key conversation_id to) t.new_owner (with_role t.new_owner "owner")
          t.demoted t.belongs,
      owner-counted id (key conversation_id to) t.new_owner t.demoted t.belongs,
    )
