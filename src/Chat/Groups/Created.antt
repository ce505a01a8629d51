-- ===== src/Chat/Groups/Created.antt =====
-- The owner of a group under creation, invitation and a new announcement.
use jiuyue.Base.{
  if◌then◌else◌, Option-cases, ◌+◌, String, ◌≡◌, refl, sym, ap, subst, ◌∙◌, ◌⊎◌, inl, inr, List, [],
  ◌∷◌, arith, text_key, nat_key, Option, none, text_discrete,
}
use jiuyue.Base.Map.{Map, lookup, insert, Distinct, insert-Distinct, kept, lookup-insert}
use jiuyue.Base.Int.{ℤ}
use jiuyue.Contract.{owner, as_str}
use jiuyue.Chat.Errors.{ChatError, Result, ok, err, ◌>>=◌}
use jiuyue.Chat.Store.{Conversation, MemberKey, member_key, Member, PeerRow, Db, same, key}
use jiuyue.Chat.Store.Creation.{
  add_member_with_role, add_all, new_group, create_group_with_members, set_announcement,
}
use jiuyue.Chat.Groups.Owners.{plain_roles, weight, owners, owners-insert_new}
use jiuyue.Chat.Groups.Adding.{invite_each}
use jiuyue.Chat.Groups.Operations.{IsValid, members_kept}

abbrev newcomer : String → ℤ → Member
newcomer role now = record {
  role = role;
  joined_at_ms = now;
  read_marker_seq = 0;
  read_receipt_seq = 0;
  unread_count = 0;
}

added_row :
    (t : Db) (members rows : Map MemberKey Member) (c user role id : String) (now : ℤ)
    → add_member_with_role t members c user role now ≡ ok rows
    → Distinct members
    → Distinct rows
      × (owners id rows ≡ owners id members + weight id (key c user) (newcomer role now))
unfolding add_member_with_role
added_row t members rows c user role id now h d =
    let m = newcomer role now in
    elim (Option-cases (lookup (key c user) members)) [
      | inl free ↦
          let same_rows : insert (key c user) m members ≡ rows = ground (arith, free, h) in
          (
            subst Distinct same_rows (insert-Distinct (key c user) m members d),
            ap (owners id) (sym same_rows) ∙ owners-insert_new id (key c user) m members free,
          )
      | inr (m', taken) ↦ absurd (ground (arith, taken, h))
    ]

pub Result-cases :
    {A : Type 0} (r : Result A) → ((e : ChatError) × (r ≡ err e)) ⊎ ((a : A) × (r ≡ ok a))
Result-cases (err e) = inl (e, refl)
Result-cases (ok a) = inr (a, refl)

added_rows :
    (us : List String) (t : Db) (members rows : Map MemberKey Member) (c id : String) (now : ℤ)
    → add_all t members c us now ≡ ok rows
    → Distinct members
    → Distinct rows × (owners id rows ≡ owners id members)
unfolding add_all as_str
added_rows [] t members rows c id now h d =
    let same_rows : members ≡ rows = cc h in
    (subst Distinct same_rows d, ap (owners id) (sym same_rows))
added_rows (u ∷ us) t members rows c id now h d =
    elim (Result-cases (add_member_with_role t members c u "member" now)) [
      | inl (e, failed) ↦ absurd (ground (arith, failed, h))
      | inr (next, added) ↦
          let (d', counted) = added_row t members next c u "member" id now added d in
          let (d'', kept) = added_rows us t next rows c id now (ground (arith, added, h)) d' in
          (d'', kept ∙ ground (arith, counted, plain_roles))
    ]

-- What a creation that succeeds leaves.
created_rows :
    (t db : Db) (c title owner_id id : String) (members : List String) (now : ℤ)
    (rows : Map MemberKey Member)
    → (add_member_with_role t db.members c owner_id (as_str owner) now >>= λ owned.
        add_all t owned c members now)
      ≡ ok rows
    → Distinct db.members
    → Distinct rows × (owners id rows ≡ owners id db.members + (if same c id then 1 else 0))
unfolding as_str
created_rows t db c title owner_id id members now rows h d =
    elim (Result-cases (add_member_with_role t db.members c owner_id "owner" now)) [
      | inl (e, failed) ↦ absurd (ground (arith, failed, h))
      | inr (owned, added) ↦
          let (d', counted) = added_row t db.members owned c owner_id "owner" id now added d in
          let (d'', kept) =
            added_rows members t owned rows c id now (ground (arith, added, h)) d' in
          (d'', ground (arith, kept, counted, plain_roles))
    ]

opened_group :
    (db : Db) (c title : String) (now : ℤ) (rows : Map MemberKey Member)
    → IsValid db
    → lookup c db.conversations ≡ none
    → Distinct rows
    → ((id : String) → owners id rows ≡ owners id db.members + (if same c id then 1 else 0))
    → IsValid (record db {
      conversations = insert c (new_group title now) db.conversations;
      members = rows;
    })
opened_group db c title now rows v free d counted = record {
  distinct = d;
  owned = λ id conversation found is_group. elim (text_discrete c id) [
    | yes p ↦ ground (
      arith,
      counted id,
      p,
      ap (λ i. lookup i db.conversations) p,
      v.absent id (ap (λ i. lookup i db.conversations) (sym p) ∙ free),
    )
    | no p ↦ ground (
      arith,
      counted id,
      v.owned id conversation
          (ground (arith, p, found, lookup-insert c id (new_group title now) db.conversations))
          is_group,
    )
  ];
  absent = λ id missing. elim (text_discrete c id) [
    | yes p ↦
        absurd
          (ground (arith, missing, p, lookup-insert c id (new_group title now) db.conversations))
    | no p ↦ ground (
      arith,
      counted id,
      v.absent id
          (ground (arith, p, missing, lookup-insert c id (new_group title now) db.conversations)),
    )
  ];
}

pub create_group_with_members-IsValid :
    (db : Db) (c title owner_id : String) (members : List String) (now : ℤ)
    → IsValid db
    → IsValid (create_group_with_members db c title owner_id members now).0
unfolding create_group_with_members
create_group_with_members-IsValid db c title owner_id members now v =
    let opened : Db = record db {
      conversations = insert c (new_group title now) db.conversations;
    } in
    elim (Option-cases (lookup c db.conversations)) [
      | inr (found, taken) ↦ rw (taken, create_group_with_members) v
      | inl free ↦
          elim (Result-cases (
            add_member_with_role opened db.members c owner_id (as_str owner) now >>= λ owned.
            add_all opened owned c members now)) [
              | inl (e, failed) ↦ rw (free, failed, create_group_with_members) v
              | inr (rows, added) ↦
                  let made = λ (id : String).
                    created_rows opened db c title owner_id id members now rows added v.distinct in
                  rw (free, added, create_group_with_members)
                    (opened_group db c title now rows v free (made c).0 (λ id. (made id).1))
            ]
    ]

pub invite_each-IsValid :
    (us : List PeerRow) (db : Db) (c : String) (now : ℤ)
    → IsValid db
    → IsValid (invite_each db c us now).0
unfolding invite_each
invite_each-IsValid [] db c now v = v
invite_each-IsValid (u ∷ us) db c now v =
    elim (Result-cases (add_member_with_role db db.members c u.id "member" now)) [
      | inl (e, failed) ↦ rw (failed, invite_each) v
      | inr (rows, added) ↦
          let row =
            λ (id : String). added_row db db.members rows c u.id "member" id now added v.distinct in
          rw (added, invite_each)
            (invite_each-IsValid us (record db { members = rows }) c now
              (members_kept db (record db { members = rows }) v refl (row c).0
                (λ id n small count. ground (arith, row id, count, plain_roles))))
    ]

pub set_announcement-IsValid :
    (db : Db) (c : String) (text : Option String)
    → IsValid db
    → IsValid (set_announcement db c text).0
unfolding set_announcement
set_announcement-IsValid db c text v = elim (Option-cases (lookup c db.conversations)) [
  | inl missing ↦ rw (missing, set_announcement) v
  | inr (old, found) ↦
      let new_row : Conversation = record old { announcement = text } in
      rw (found, set_announcement)
        (record {
          distinct = v.distinct;
          owned = λ id conversation found' is_group. elim (text_discrete c id) [
            | yes p ↦
                v.owned id old (ap (λ i. lookup i db.conversations) (sym p) ∙ found)
                  (ground (arith, p, found', is_group, lookup-insert c id new_row db.conversations))
            | no p ↦
                v.owned id conversation
                  (ground (arith, p, found', lookup-insert c id new_row db.conversations)) is_group
          ];
          absent = λ id missing.
              v.absent id (ground (arith, missing, lookup-insert c id new_row db.conversations));
        })
]
