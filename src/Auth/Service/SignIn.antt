-- ===== src/Auth/Service/SignIn.antt =====
-- backend/crates/auth/src/service.rs: opening a session, and what its tokens are good for.
use jiuyue.Base.{if◌then◌else◌, is_some, ℕ, ◌/◌, String, Option, none, some, [], ◌∷◌, ◌++◌}
use jiuyue.Contract.{UserProfile, TokenPair, AuthSession, LoginRequest, RegisterRequest}
use jiuyue.Auth.Errors.{
  Result, ok, err, validation, unauthenticated, email_not_verified, require, ok_or, ◌>>=◌, ◌>>◌,
}
use jiuyue.Auth.Validation.{
  validate_registration, validate_login, normalize_email, normalize_username, display_name,
}
use jiuyue.Auth.Limiter.Store.{record_success}
use jiuyue.Auth.Tokens.{issue_access, verify_access}
use jiuyue.Auth.Store.{
  Db, UserRow, SessionRow, email_verification, find_user_by_email, find_user_by_id,
}
use jiuyue.Auth.Store.Accounts.{
  NewSession, create_account, create_session, find_active_session_by_token_hash,
  find_active_session_by_id, revoke_session, touch_session,
}
use jiuyue.Auth.Mail.{verification_message}
use jiuyue.Auth.Service.{
  AuthService, World, Supply, SessionContext, PasswordHasher, source, refresh_ttl, profile_from,
  token_pair, finish_sign_in, refuse_while_limited, reject, create_link, same,
}

-- `issue_verification_link`: an error is logged, and nothing is sent.
unfoldable pub issue_verification_link : AuthService → Supply → World → UserRow → World
unfolding create_link
issue_verification_link s given w user =
    elim (create_link s given w.db user.id email_verification) [
      | err e ↦ w
      | ok (db, none) ↦ record w { db = db }
      | ok (db, some secret) ↦ record w {
        db = db;
        outbox =
            w.outbox
            ++ verification_message user s.public_base_url secret s.verification_token_ttl ∷ [];
      }
    ]

abbrev pub session_for : AuthService → Supply → SessionContext → String → String → NewSession
session_for s given context user_id refresh_secret = record {
  id = given.session_id;
  user_id = user_id;
  refresh_token_hash = s.crypto.hash_token refresh_secret;
  device_label = context.device_label;
  user_agent = context.user_agent;
  ip_address = context.ip_address;
  refresh_ttl = refresh_ttl s.tokens;
}

-- The part of `register` up to the transaction.
unfoldable pub open_account :
    AuthService → Supply → Db → RegisterRequest → SessionContext → Result (Db × UserRow × String)
open_account s given db request context =
    let username = normalize_username s.to_lowercase request.username in
    do
      phc ← s.hasher.hash given.salt request.password
      secret ← given.refresh_secret
      (db', user) ←
          create_account db
            (record {
              id = given.user_id;
              username = username;
              email = normalize_email s.to_lowercase request.email;
              password_hash = phc;
              display_name = display_name request.display_name username;
            })
            (session_for s given context given.user_id secret) given.now
      ok (db', user, secret)

unfoldable pub register :
    AuthService → Supply → World → RegisterRequest → SessionContext → World × Result AuthSession
unfolding open_account issue_verification_link
register s given w request context = elim (validate_registration s.to_lowercase request) [
  | p ∷ ps ↦ (w, err (validation (p ∷ ps)))
  | [] ↦ elim (open_account s given w.db request context) [
    | err e ↦ (w, err e)
    | ok (db, user, secret) ↦ (
      issue_verification_link s given (record w { db = db }) user,
      finish_sign_in s given.system user given.session_id secret,
    )
  ]
]

-- The checks of a password. `absorb_timing` verifies against the throwaway hash, and only an error
-- of the hasher shows.
unfoldable pub check_password :
    PasswordHasher → String → Option UserRow → String → Result (Option UserRow)
check_password h dummy none password = h.verify password dummy >>= λ _. ok none
check_password h dummy (some user) password = elim user.password_hash [
  | none ↦ h.verify password dummy >>= λ _. ok none
  | some phc ↦ h.verify password phc >>= λ matches. ok (if matches then some user else none)
]

-- The session of a sign-in: the tables, and the secret that was drawn.
unfoldable pub insert_session :
    AuthService → Supply → Db → String → SessionContext → Result (Db × String)
insert_session s given db user_id context = do
  secret ← given.refresh_secret
  db' ← create_session db (session_for s given context user_id secret) given.now
  ok (db', secret)

-- From the check of the password on: the source is forgiven, and a session opened.
unfoldable pub open_session :
    AuthService → Supply → World → UserRow → SessionContext → World × Result AuthSession
unfolding insert_session
open_session s given w user context =
    let forgiven : World = record w {
      login_attempts = record_success w.login_attempts (source context);
    } in
    elim (insert_session s given w.db user.id context) [
      | err e ↦ (forgiven, err e)
      | ok (db, secret) ↦
          (record forgiven { db = db }, finish_sign_in s given.system user given.session_id secret)
    ]

-- `others` is what other requests commit while the password is checked.
unfoldable pub login :
    (Db → Db)
    → AuthService
    → Supply
    → World
    → LoginRequest
    → SessionContext
    → World × Result AuthSession
unfolding refuse_while_limited check_password open_session reject source
login others s given w request context =
    let (attempts, gate) = refuse_while_limited w.login_attempts (source context) given.instant in
    let seen : World = record w { login_attempts = attempts } in
    elim gate [
      | err e ↦ (seen, err e)
      | ok _ ↦ elim (validate_login s.to_lowercase request) [
        | p ∷ ps ↦ (seen, err (validation (p ∷ ps)))
        | [] ↦
            let user = find_user_by_email w.db (normalize_email s.to_lowercase request.email) in
            elim (check_password s.hasher s.dummy_hash user request.password) [
              | err e ↦ (seen, err e)
              | ok none ↦
                  let (rejected, e) = reject seen (source context) given.instant in
                  (rejected, err e)
              | ok (some known) ↦
                  open_session s given (record seen { db = others w.db }) known context
            ]
      ]
    ]

unfoldable pub refreshed : AuthService → Supply → Db → String → Result (SessionRow × TokenPair)
refreshed s given db refresh_token = do
  session ←
      ok_or (find_active_session_by_token_hash db given.now (s.crypto.hash_token refresh_token))
        unauthenticated
  issued ← issue_access s.crypto s.tokens given.system session.user_id session.id
  ok (session, token_pair issued refresh_token)

-- The refresh token stays the same.
unfoldable pub refresh : AuthService → Supply → World → String → World × Result TokenPair
unfolding refreshed
refresh s given w refresh_token = elim (refreshed s given w.db refresh_token) [
  | err e ↦ (w, err e)
  | ok (session, tokens) ↦ (record w { db = touch_session w.db given.now session.id }, ok tokens)
]

-- Seconds of the system's clock, as `decode` reads it.
abbrev pub system_secs : Option ℕ → ℕ
system_secs none = 0
system_secs (some elapsed) = elapsed / 1_000_000_000

unfoldable pub logout : AuthService → Supply → World → String → World × Result (Unit {0})
logout s given w access_token =
    elim (verify_access s.crypto access_token (system_secs given.system)) [
      | err e ↦ (w, err e)
      | ok claims ↦ (record w { db = revoke_session w.db given.now claims.sid }, ok tt)
    ]

-- `.filter(|session| session.user_id == claims.sub)`.
abbrev pub owned_by : String → Option SessionRow → Option SessionRow
owned_by sub none = none
owned_by sub (some session) = if same session.user_id sub then some session else none

-- `AuthenticatedSession` has the fields of a `SessionRow`.
unfoldable pub authenticate : AuthService → Supply → Db → String → Result SessionRow
authenticate s given db access_token = do
  claims ← verify_access s.crypto access_token (system_secs given.system)
  ok_or (owned_by claims.sub (find_active_session_by_id db given.now claims.sid)) unauthenticated

unfoldable pub authenticate_verified : AuthService → Supply → Db → String → Result SessionRow
unfolding authenticate
authenticate_verified s given db access_token = do
  session ← authenticate s given db access_token
  user ← ok_or (find_user_by_id db session.user_id) unauthenticated
  require (is_some user.email_verified_at) email_not_verified
  ok session

unfoldable pub current_user : AuthService → Supply → Db → String → Result UserProfile
unfolding authenticate profile_from
current_user s given db access_token = do
  session ← authenticate s given db access_token
  user ← ok_or (find_user_by_id db session.user_id) unauthenticated
  ok (profile_from user)
