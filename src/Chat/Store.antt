-- ===== src/Chat/Store.antt =====
-- backend/crates/chat/src/repository.rs: the tables of Conversations, members and Messages, and
-- the statements on them. A statement is a function on the tables. The members stand in the order
-- in which they joined, the Messages in the order in which they were written.
pub mod Messages
pub mod Reads
pub mod Members
pub mod Creation
pub mod Pages
pub mod Numbering
pub mod Paging
pub mod History
pub mod Idempotent
pub mod Unread
use jiuyue.Base.{
  if◌then◌else◌, text_discrete, ℕ, ◌-◌, ◌/◌, String, ite, Bool, true, false, Option, none, some,
  List, [], ◌∷◌, text_key, nat_key,
}
use jiuyue.Base.Map.{Map, keys, lookup, contains_key}
use jiuyue.Base.Int.{ℤ}
use jiuyue.Base.{DecEq}
pub use jiuyue.Base.{same}

-- A row of `conversations`, without the columns that nothing here reads. Times are in milliseconds.
pub record Conversation : Type 0 where
  pub kind : String
  pub title : Option String
  pub announcement : Option String
  pub created_at_ms : ℤ
  pub next_seq : ℕ

-- The primary key of `conversation_members`.
pub record MemberKey : Type 0 where
  pub conversation_id : String
  pub user_id : String

unfoldable pub MemberKey-discrete : Discrete MemberKey
MemberKey-discrete = hlevel text_discrete

instance abbrev pub member_key : DecEq MemberKey
member_key = record { dec = MemberKey-discrete }

-- The positions and the count are never negative: the schema has a CHECK for each.
pub record Member : Type 0 where
  pub role : String
  pub joined_at_ms : ℤ
  pub read_marker_seq : ℕ
  pub read_receipt_seq : ℕ
  pub unread_count : ℕ

pub record MessageRow : Type 0 where
  pub id : String
  pub conversation_id : String
  pub seq : ℕ
  pub sender_id : String
  pub client_msg_id : String
  pub body : String
  pub created_at_ms : ℤ

pub record NewMessageRow : Type 0 where
  pub id : String
  pub conversation_id : String
  pub sender_id : String
  pub client_msg_id : String
  pub body : String

-- What is read of a row of `users`.
pub record PeerRow : Type 0 where
  pub id : String
  pub username : String
  pub display_name : String
  pub avatar_url : Option String

pub record Db : Type 0 where
  pub users : List PeerRow
  pub conversations : Map String Conversation
  pub members : Map MemberKey Member
  pub messages : List MessageRow

abbrev pub key : String → String → MemberKey
key conversation_id user_id = record { conversation_id = conversation_id; user_id = user_id }

-- `SELECT_MEMBERSHIP`: none when there is no such Conversation.
unfoldable pub membership : Db → String → String → Option Bool
membership db conversation_id user_id = elim (lookup conversation_id db.conversations) [
  | none ↦ none
  | some c ↦ some (contains_key (key conversation_id user_id) db.members)
]

abbrev pub users_of : String → List MemberKey → List String
users_of conversation_id [] = []
users_of conversation_id (k ∷ ks) =
    if same k.conversation_id conversation_id
    then k.user_id ∷ users_of conversation_id ks
    else users_of conversation_id ks

-- `SELECT_PARTICIPANTS`, in join order.
unfoldable pub participants : Db → String → List String
participants db conversation_id = users_of conversation_id (keys db.members)
