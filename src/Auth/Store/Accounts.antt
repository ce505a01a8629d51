-- ===== src/Auth/Store/Accounts.antt =====
-- backend/crates/auth/src/repository.rs: the statements on accounts and sessions.
use jiuyue.Base.{text_key, nat_key}
use jiuyue.Base.{
  ltb, leb, same, find_first, update_where, ℕ, ◌+◌, String, Bool, not, ◌&&◌, ◌||◌, Option, none,
  some, [], ◌∷◌, ◌++◌, is_some,
}
use jiuyue.Chat.Ident.{is_ulid}
use jiuyue.Auth.Validation.{is_valid_username, count, display_name_max_chars}
use jiuyue.Auth.Errors.{
  Result, ok, email_taken, username_taken, account_missing, database, require, ok_or, ◌>>=◌, ◌>>◌,
}
use jiuyue.Auth.Store.{
  Db, UserRow, SessionRow, StoredSession, find_user_by_email, find_user_by_id,
  find_user_by_username,
}

pub record NewAccount : Type 0 where
  pub id : String
  pub username : String
  pub email : String
  pub password_hash : String
  pub display_name : String

-- The lifetime is in microseconds.
pub record NewSession : Type 0 where
  pub id : String
  pub user_id : String
  pub refresh_token_hash : String
  pub device_label : Option String
  pub user_agent : Option String
  pub ip_address : Option String
  pub refresh_ttl : ℕ

-- The CHECKs of `users` on an inserted row, but for the one on the case of the email.
abbrev pub allowed_row : UserRow → Bool
allowed_row u =
    is_ulid u.id
    && (is_valid_username u.username
        && (leb 1 (count u.display_name) && leb (count u.display_name) display_name_max_chars))

-- `INSERT INTO users` with `map_account_insert_error`: the CHECKs, then the unique indexes in the
-- order in which the table declares them.
unfoldable pub insert_user : Db → UserRow → Result Db
insert_user db user = do
  require (allowed_row user) database
  require (not (is_some (find_user_by_id db user.id))) database
  require (not (is_some (find_user_by_username db user.username))) username_taken
  require (not (is_some (find_user_by_email db user.email))) email_taken
  ok (record db { users = db.users ++ user ∷ [] })

abbrev pub session_of : NewSession → ℕ → StoredSession
session_of s now = record {
  id = s.id;
  user_id = s.user_id;
  refresh_token_hash = s.refresh_token_hash;
  device_label = s.device_label;
  user_agent = s.user_agent;
  ip_address = s.ip_address;
  last_seen_at = now;
  expires_at = now + s.refresh_ttl;
  revoked_at = none;
}

-- `INSERT_SESSION`: the account must exist, and the id and the digest must be new.
unfoldable pub create_session : Db → NewSession → ℕ → Result Db
create_session db s now = do
  require (is_ulid s.id && is_some (find_user_by_id db s.user_id)) database
  require
      (not (
        is_some (
          find_first (λ o. same o.id s.id || same o.refresh_token_hash s.refresh_token_hash)
            db.sessions)))
      database
  ok (record db { sessions = db.sessions ++ session_of s now ∷ [] })

abbrev pub user_of : NewAccount → ℕ → UserRow
user_of a now = record {
  id = a.id;
  username = a.username;
  email = a.email;
  display_name = a.display_name;
  avatar_url = none;
  password_hash = some a.password_hash;
  email_verified_at = none;
  created_at = now;
}

-- One transaction: an error of either statement leaves the tables as they were.
unfoldable pub create_account : Db → NewAccount → NewSession → ℕ → Result (Db × UserRow)
unfolding insert_user create_session
create_account db account session now = do
  db' ← insert_user db (user_of account now)
  db'' ← create_session db' session now
  ok (db'', user_of account now)

-- The filter of `SELECT_ACTIVE_SESSION`.
abbrev pub is_active : ℕ → StoredSession → Bool
is_active now s = not (is_some s.revoked_at) && ltb now s.expires_at

-- The join with `users`.
abbrev pub session_row : Db → Option StoredSession → Option SessionRow
session_row db none = none
session_row db (some s) = elim (find_user_by_id db s.user_id) [
  | none ↦ none
  | some u ↦ some (record { id = s.id; user_id = s.user_id; username = u.username })
]

unfoldable pub find_active_session_by_token_hash : Db → ℕ → String → Option SessionRow
find_active_session_by_token_hash db now refresh_token_hash =
    session_row db (
      find_first (λ s. is_active now s && same s.refresh_token_hash refresh_token_hash) db.sessions)

unfoldable pub find_active_session_by_id : Db → ℕ → String → Option SessionRow
find_active_session_by_id db now session_id =
    session_row db (find_first (λ s. is_active now s && same s.id session_id) db.sessions)

abbrev pub revoked : ℕ → StoredSession → StoredSession
revoked now s = record s { revoked_at = some now }

unfoldable pub revoke_session : Db → ℕ → String → Db
revoke_session db now session_id = record db {
  sessions =
      update_where (λ s. same s.id session_id && not (is_some s.revoked_at)) (revoked now)
        db.sessions;
}

unfoldable pub touch_session : Db → ℕ → String → Db
touch_session db now session_id = record db {
  sessions =
      update_where (λ s. same s.id session_id && not (is_some s.revoked_at))
        (λ s. record s { last_seen_at = now }) db.sessions;
}

unfoldable pub revoke_all_sessions : Db → ℕ → String → Db
revoke_all_sessions db now user_id = record db {
  sessions =
      update_where (λ s. same s.user_id user_id && not (is_some s.revoked_at)) (revoked now)
        db.sessions;
}

-- `COALESCE`.
abbrev pub coalesce : Option ℕ → ℕ → Option ℕ
coalesce none now = some now
coalesce (some at) now = some at

abbrev pub verified_row : ℕ → UserRow → UserRow
verified_row now u = record u { email_verified_at = coalesce u.email_verified_at now }

unfoldable pub mark_email_verified : Db → ℕ → String → Db × Result UserRow
mark_email_verified db now user_id =
    let db' : Db = record db {
      users = update_where (λ u. same u.id user_id) (verified_row now) db.users;
    } in
    (db', ok_or (find_user_by_id db' user_id) account_missing)

unfoldable pub update_password : Db → String → String → Db × Result (Unit {0})
update_password db user_id password_hash = (
  record db {
    users =
        update_where (λ u. same u.id user_id) (λ u. record u { password_hash = some password_hash })
          db.users;
  },
  require (is_some (find_user_by_id db user_id)) account_missing,
)
