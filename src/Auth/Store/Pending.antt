-- ===== src/Auth/Store/Pending.antt =====
-- backend/crates/auth/src/oauth/repository.rs: accounts that a provider's identity opens, and the
-- limited sessions of those that have no chosen username yet.
use jiuyue.Base.{
  ltb, leb, if◌then◌else◌, same, find_first, update_where, ℕ, ◌+◌, String, Bool, not, ◌&&◌, ◌||◌,
  Option, none, some, [], ◌∷◌, ◌++◌, is_some,
}
use jiuyue.Chat.Ident.{is_ulid}
use jiuyue.Contract.{OAuthProvider}
use jiuyue.Auth.Validation.{is_valid_username, count, display_name_max_chars}
use jiuyue.Auth.Errors.{
  Result, ok, err, database, oauth_state_invalid, username_taken, require, ◌>>=◌, ◌>>◌,
}
use jiuyue.Auth.Store.{Db, UserRow, PendingRow, find_user_by_id}
use jiuyue.Auth.Store.Accounts.{insert_user}
use jiuyue.Auth.Store.OAuth.{NewOAuthAccount, same_provider, insert_identity}

abbrev pub is_pending : OAuthProvider → String → PendingRow → Bool
is_pending provider subject p = same_provider p.provider provider && same p.subject subject

-- `INSERT INTO oauth_pending_sessions`, whose three unique keys are the id, the digest and the
-- identity.
unfoldable pub insert_pending : Db → PendingRow → Result Db
insert_pending db p = do
  require (is_ulid p.id && is_some (find_user_by_id db p.user_id)) database
  require
      (not (
        is_some (
          find_first
            (λ o.
              same o.id p.id
              || (same o.token_hash p.token_hash || is_pending p.provider p.subject o))
            db.oauth_pending_sessions)))
      database
  ok (record db { oauth_pending_sessions = db.oauth_pending_sessions ++ p ∷ [] })

abbrev pub oauth_user : NewOAuthAccount → ℕ → UserRow
oauth_user a now = record {
  id = a.user_id;
  username = a.username;
  email = a.email;
  display_name = a.display_name;
  avatar_url = none;
  password_hash = none;
  email_verified_at = if a.email_verified then some now else none;
  created_at = now;
}

abbrev pub pending_of : NewOAuthAccount → ℕ → PendingRow
pending_of a now = record {
  id = a.pending_id;
  token_hash = a.pending_token_hash;
  provider = a.identity.provider;
  subject = a.identity.subject;
  user_id = a.user_id;
  consumed_at = none;
  expires_at = now + a.pending_ttl;
}

-- One transaction of three inserts.
unfoldable pub create_oauth_account : Db → ℕ → NewOAuthAccount → Result (Db × UserRow)
unfolding insert_user insert_identity insert_pending
create_oauth_account db now a = do
  db1 ← insert_user db (oauth_user a now)
  db2 ← insert_identity db1 (record a.identity { user_id = a.user_id })
  db3 ← insert_pending db2 (pending_of a now)
  ok (db3, oauth_user a now)

abbrev pub pending_live : ℕ → PendingRow → Bool
pending_live now p = not (is_some p.consumed_at) && ltb now p.expires_at

abbrev pub pending_id_of : Option PendingRow → Option String
pending_id_of none = none
pending_id_of (some p) = some p.id

unfoldable pub active_pending_session : Db → ℕ → OAuthProvider → String → Option String
active_pending_session db now provider subject = pending_id_of (
    find_first (λ p. is_pending provider subject p && pending_live now p) db.oauth_pending_sessions)

abbrev pub pending_spent : ℕ → PendingRow → PendingRow
pending_spent now p = record p { consumed_at = some now }

unfoldable pub consume_pending_session_by_id : Db → ℕ → String → Db
consume_pending_session_by_id db now id = record db {
  oauth_pending_sessions =
      update_where (λ p. same p.id id && not (is_some p.consumed_at)) (pending_spent now)
        db.oauth_pending_sessions;
}

-- The DO UPDATE of the row that holds the identity.
abbrev pub renewed : PendingRow → PendingRow → PendingRow
renewed new p = record p {
  id = new.id;
  token_hash = new.token_hash;
  user_id = new.user_id;
  consumed_at = none;
  expires_at = new.expires_at;
}

-- The upsert on `(provider, subject)`; the id and the digest must be new.
unfoldable pub mint_pending_session : Db → PendingRow → Result Db
mint_pending_session db new = do
  require (is_ulid new.id && is_some (find_user_by_id db new.user_id)) database
  require
      (not (
        is_some (
          find_first (λ o. same o.id new.id || same o.token_hash new.token_hash)
            db.oauth_pending_sessions)))
      database
  ok (record db {
    oauth_pending_sessions =
        if is_some (find_first (is_pending new.provider new.subject) db.oauth_pending_sessions)
        then update_where (is_pending new.provider new.subject) (renewed new)
            db.oauth_pending_sessions
        else db.oauth_pending_sessions ++ new ∷ [];
  })

abbrev pub claimed_row : String → String → UserRow → UserRow
claimed_row username display_name u = record u { username = username; display_name = display_name }

-- The unique index on usernames, for a row that keeps its id.
abbrev pub username_free : Db → String → String → Bool
username_free db user_id username =
    not (is_some (find_first (λ u. same u.username username && not (same u.id user_id)) db.users))

-- From the locked row of the limited session on. The second UPDATE has no test of `consumed_at`.
abbrev pub claim_for : Db → ℕ → String → String → String → UserRow → Result (Db × UserRow)
claim_for db now token_hash username display_name u = do
  require
      (is_valid_username username
        && (leb 1 (count display_name) && leb (count display_name) display_name_max_chars))
      database
  require (username_free db u.id username) username_taken
  ok (
    record db {
      users = update_where (λ o. same o.id u.id) (claimed_row username display_name) db.users;
      oauth_pending_sessions =
          update_where (λ p. same p.token_hash token_hash) (pending_spent now)
            db.oauth_pending_sessions;
    },
    claimed_row username display_name u,
  )

abbrev pub pending_user : Db → Option PendingRow → Option UserRow
pending_user db none = none
pending_user db (some p) = find_user_by_id db p.user_id

unfoldable pub claim_username : Db → ℕ → String → String → String → Result (Db × UserRow)
claim_username db now token_hash username display_name =
    elim (pending_user db (
      find_first (λ p. same p.token_hash token_hash && pending_live now p)
        db.oauth_pending_sessions)) [
          | none ↦ err oauth_state_invalid
          | some u ↦ claim_for db now token_hash username display_name u
        ]
