-- ===== src/Auth/Store.antt =====
-- backend/crates/auth/src/repository.rs: the tables of the identity module. A statement is a function
-- on the tables and sees one instant, `now`, of the database's clock: microseconds since the epoch, as
-- all times in the tables.
pub mod Accounts
pub mod Links
pub mod OAuth
pub mod Pending
pub mod Statements
pub mod Spent
pub mod Redeemed
pub mod States
use jiuyue.Base.{text_key, nat_key, same, find_first, all, ℕ, ◌-◌, ◌/◌, String, Bool, Option, List}
use jiuyue.Contract.{OAuthProvider}
use jiuyue.Chat.Ident.{is_ulid}
use jiuyue.Auth.Validation.{is_valid_username, count, display_name_max_chars}
use jiuyue.Auth.Errors.{
  Result, ok, err, email_taken, username_taken, account_missing, database, require, ok_or, ◌>>=◌,
  ◌>>◌,
}

-- A row of `users`, without `updated_at`.
pub record UserRow : Type 0 where
  pub id : String
  pub username : String
  pub email : String
  pub display_name : String
  pub avatar_url : Option String
  pub password_hash : Option String
  pub email_verified_at : Option ℕ
  pub created_at : ℕ

-- What a live request is told of a session.
pub record SessionRow : Type 0 where
  pub id : String
  pub user_id : String
  pub username : String

-- A row of `sessions`, without `created_at`.
pub record StoredSession : Type 0 where
  pub id : String
  pub user_id : String
  pub refresh_token_hash : String
  pub device_label : Option String
  pub user_agent : Option String
  pub ip_address : Option String
  pub last_seen_at : ℕ
  pub expires_at : ℕ
  pub revoked_at : Option ℕ

pub data TokenPurpose : Type 0 where
  email_verification password_reset : TokenPurpose

-- A row of `account_tokens`.
pub record AccountToken : Type 0 where
  pub id : String
  pub user_id : String
  pub purpose : TokenPurpose
  pub token_hash : String
  pub expires_at : ℕ
  pub consumed_at : Option ℕ

-- A row of `oauth_identities`.
pub record IdentityRow : Type 0 where
  pub id : String
  pub user_id : String
  pub provider : OAuthProvider
  pub subject : String
  pub display_name : Option String
  pub email : Option String
  pub email_verified : Bool

-- A row of `oauth_states`.
pub record StateRow : Type 0 where
  pub id : String
  pub state_hash : String
  pub provider : OAuthProvider
  pub code_verifier_hash : String
  pub redirect_path : Option String
  pub user_id : Option String
  pub consumed_at : Option ℕ
  pub expires_at : ℕ

-- A row of `oauth_pending_sessions`.
pub record PendingRow : Type 0 where
  pub id : String
  pub token_hash : String
  pub provider : OAuthProvider
  pub subject : String
  pub user_id : String
  pub consumed_at : Option ℕ
  pub expires_at : ℕ

pub record Db : Type 0 where
  pub users : List UserRow
  pub sessions : List StoredSession
  pub account_tokens : List AccountToken
  pub oauth_identities : List IdentityRow
  pub oauth_states : List StateRow
  pub oauth_pending_sessions : List PendingRow

abbrev pub find_user_by_email : Db → String → Option UserRow
find_user_by_email db email = find_first (λ u. same u.email email) db.users

abbrev pub find_user_by_id : Db → String → Option UserRow
find_user_by_id db id = find_first (λ u. same u.id id) db.users

abbrev pub find_user_by_username : Db → String → Option UserRow
find_user_by_username db username = find_first (λ u. same u.username username) db.users
