-- ===== src/Auth/Store/OAuth.antt =====
-- backend/crates/auth/src/oauth/repository.rs: the three tables of third-party sign-in, and the
-- statements on them.
use jiuyue.Base.{
  ltb, leb, if◌then◌else◌, same, find_first, update_where, ℕ, ◌+◌, String, Bool, true, false, not,
  ◌&&◌, ◌||◌, Option, none, some, List, [], ◌∷◌, ◌++◌, is_some,
}
use jiuyue.Chat.Ident.{is_ulid, codes}
use jiuyue.Contract.{OAuthProvider, github, google}
use jiuyue.Auth.Validation.{count}
use jiuyue.Auth.Errors.{Result, ok, database, oauth_identity_taken, require, ◌>>◌}
use jiuyue.Auth.Store.{Db, UserRow, IdentityRow, StateRow, find_user_by_id, find_user_by_email}

-- A lifetime is in microseconds.
pub record NewOAuthState : Type 0 where
  pub id : String
  pub state_hash : String
  pub provider : OAuthProvider
  pub code_verifier_hash : String
  pub redirect_path : Option String
  pub user_id : Option String
  pub ttl : ℕ

pub record StoredOAuthState : Type 0 where
  pub provider : OAuthProvider
  pub code_verifier_hash : String
  pub user_id : Option String
  pub redirect_path : Option String
  pub expires_at : ℕ

pub record NewOAuthAccount : Type 0 where
  pub user_id : String
  pub username : String
  pub email : String
  pub display_name : String
  pub email_verified : Bool
  pub identity : IdentityRow
  pub pending_id : String
  pub pending_token_hash : String
  pub pending_ttl : ℕ

abbrev pub same_provider : OAuthProvider → OAuthProvider → Bool
same_provider github github = true
same_provider github google = false
same_provider google github = false
same_provider google google = true

-- The CHECK on a return path: one slash, and something that is not a second one.
abbrev pub path_allowed : List ℕ → Bool
path_allowed [] = false
path_allowed (c ∷ []) = false
path_allowed (c ∷ d ∷ cs) = leb c b'/' && leb b'/' c && not (leb d b'/' && leb b'/' d)

abbrev pub redirect_allowed : Option String → Bool
redirect_allowed none = true
redirect_allowed (some path) = path_allowed (codes path)

abbrev pub account_exists_for : Db → Option String → Bool
account_exists_for db none = true
account_exists_for db (some user_id) = is_some (find_user_by_id db user_id)

unfoldable pub insert_state : Db → ℕ → NewOAuthState → Result Db
insert_state db now s = do
  require (is_ulid s.id && (redirect_allowed s.redirect_path && account_exists_for db s.user_id))
      database
  require
      (not (
        is_some
          (find_first (λ o. same o.id s.id || same o.state_hash s.state_hash) db.oauth_states)))
      database
  ok (record db {
    oauth_states =
        db.oauth_states
        ++ (record {
          id = s.id;
          state_hash = s.state_hash;
          provider = s.provider;
          code_verifier_hash = s.code_verifier_hash;
          redirect_path = s.redirect_path;
          user_id = s.user_id;
          consumed_at = none;
          expires_at = now + s.ttl;
        })
          ∷ [];
  })

-- `repeat('0', 64)`.
abbrev pub zeros : String
zeros = "0000000000000000000000000000000000000000000000000000000000000000"

abbrev pub state_redeemable : ℕ → String → StateRow → Bool
state_redeemable now state_hash s =
    same s.state_hash state_hash && (not (is_some s.consumed_at) && ltb now s.expires_at)

-- The SET clause: the verifier dies with the state.
abbrev pub state_spent : ℕ → StateRow → StateRow
state_spent now s = record s { consumed_at = some now; code_verifier_hash = zeros }

abbrev pub stored_state : StateRow → StoredOAuthState
stored_state s = record {
  provider = s.provider;
  code_verifier_hash = s.code_verifier_hash;
  user_id = s.user_id;
  redirect_path = s.redirect_path;
  expires_at = s.expires_at;
}

-- RETURNING of an UPDATE gives the columns of the row as the statement left it.
abbrev pub returned_state : ℕ → Option StateRow → Option StoredOAuthState
returned_state now none = none
returned_state now (some s) = some (stored_state (state_spent now s))

unfoldable pub consume_state : Db → ℕ → String → Db × Option StoredOAuthState
consume_state db now state_hash = (
  record db {
    oauth_states = update_where (state_redeemable now state_hash) (state_spent now) db.oauth_states;
  },
  returned_state now (find_first (state_redeemable now state_hash) db.oauth_states),
)

abbrev pub is_identity : OAuthProvider → String → IdentityRow → Bool
is_identity provider subject i = same_provider i.provider provider && same i.subject subject

abbrev pub find_identity : Db → OAuthProvider → String → Option IdentityRow
find_identity db provider subject = find_first (is_identity provider subject) db.oauth_identities

abbrev pub user_of_identity : Db → Option IdentityRow → Option UserRow
user_of_identity db none = none
user_of_identity db (some i) = find_user_by_id db i.user_id

unfoldable pub find_user_by_identity : Db → OAuthProvider → String → Option UserRow
find_user_by_identity db provider subject = user_of_identity db (find_identity db provider subject)

abbrev pub identity_user : Option IdentityRow → Option String
identity_user none = none
identity_user (some i) = some i.user_id

unfoldable pub identity_owner : Db → OAuthProvider → String → Option String
identity_owner db provider subject = identity_user (find_identity db provider subject)

-- The CHECKs, the foreign key and the primary key of an identity.
abbrev pub identity_allowed : Db → IdentityRow → Bool
identity_allowed db i =
    is_ulid i.id
    && (leb 1 (count i.subject)
        && (leb (count i.subject) 255
            && (is_some (find_user_by_id db i.user_id)
                && not (is_some (find_first (λ o. same o.id i.id) db.oauth_identities)))))

-- `ON CONFLICT (provider, subject) DO NOTHING`.
unfoldable pub link_identity : Db → IdentityRow → Result (Db × Bool)
link_identity db i = do
  require (identity_allowed db i) database
  ok (
      if is_some (find_identity db i.provider i.subject)
      then (db, false)
      else (record db { oauth_identities = db.oauth_identities ++ i ∷ [] }, true))

unfoldable pub insert_identity : Db → IdentityRow → Result Db
insert_identity db i = do
  require (identity_allowed db i) database
  require (not (is_some (find_identity db i.provider i.subject))) oauth_identity_taken
  ok (record db { oauth_identities = db.oauth_identities ++ i ∷ [] })

abbrev pub email_is_taken : Db → String → Bool
email_is_taken db email = is_some (find_user_by_email db email)
