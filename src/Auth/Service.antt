-- ===== src/Auth/Service.antt =====
-- backend/crates/auth/src/service.rs: the state of the identity module, what a request brings from
-- outside, and the parts that its use cases share. A request runs as one step, except where an
-- argument `others` says what other requests commit meanwhile; the database answers every statement.
pub mod SignIn
pub mod Recovery
pub mod Sessions
pub mod Links
pub mod Effects
pub mod Opened
pub mod Login
pub mod Runs
pub mod Requests
pub mod Tests
use jiuyue.Base.{
  if◌then◌else◌, is_some, ℕ, ◌-◌, ◌*◌, ◌/◌, ◌%◌, min, String, ◌≡◌, Bool, true, not, ◌&&◌, Option,
  none, some, List, same,
}
use jiuyue.Contract.{UserProfile, TokenPair, AuthSession, LoginRequest}
use jiuyue.Auth.Errors.{
  AuthError, Result, ok, err, too_many_attempts, locked_out, invalid_credentials, token_expired,
  token_invalid, oauth_not_configured, ◌>>=◌,
}
use jiuyue.Auth.Limiter.Policy.{LoginAttempt, allowed, throttled, locked_out as locked_out_for}
use jiuyue.Auth.Limiter.Store.{InProcessLoginAttemptStore, verdict, record_failure}
use jiuyue.Auth.Tokens.{
  Crypto, TokenIssuer, IssuedAccess, issue_access, saturating_add_i64, i64_max,
}
use jiuyue.Auth.Store.{Db, UserRow, TokenPurpose, email_verification, password_reset}
use jiuyue.Auth.Store.Links.{NewToken, issue, find, is_expired, is_consumed}
use jiuyue.Auth.Mail.{OutgoingMessage}
use jiuyue.Base.Word.{as_secs, u32_max}

-- Argon2id. `hash` takes the salt that it draws. Documented: a hash verifies the password that it
-- was made of.
pub record PasswordHasher : Type 0 where
  pub hash : ℕ → String → Result String
  pub verify : String → String → Result Bool
  pub verify-hash :
      (salt : ℕ) (password phc : String)
      → hash salt password ≡ ok phc
      → verify password phc ≡ ok true

-- What the service is built with. Durations are in nanoseconds.
pub record AuthService : Type 0 where
  pub crypto : Crypto
  pub hasher : PasswordHasher
  pub to_lowercase : String → String
  pub tokens : TokenIssuer
  pub public_base_url : String
  pub verification_token_ttl : ℕ
  pub reset_token_ttl : ℕ
  pub dummy_hash : String

-- What changes: the tables, the two limiters and the mail that was handed to the transport.
pub record World : Type 0 where
  pub db : Db
  pub login_attempts : InProcessLoginAttemptStore
  pub email_attempts : InProcessLoginAttemptStore
  pub outbox : List OutgoingMessage

-- What one request is given: the answers of the three clocks (`now` of the database, the time of the
-- system since the epoch and the monotone one), new ids, and what the randomness source answers.
pub record Supply : Type 0 where
  pub now : ℕ
  pub system : Option ℕ
  pub instant : ℕ
  pub user_id : String
  pub session_id : String
  pub link_id : String
  pub salt : ℕ
  pub refresh_secret : Result String
  pub link_secret : Result String

pub record SessionContext : Type 0 where
  pub device_label : Option String
  pub user_agent : Option String
  pub ip_address : Option String

abbrev pub unknown_source : String
unknown_source = "unknown"

-- `SessionContext::source`: never the account.
unfoldable pub source : SessionContext → String
source context = elim context.ip_address [
  | none ↦ unknown_source
  | some address ↦ if same address "" then unknown_source else address
]

-- Seconds of a duration as the database is given them, in its microseconds.
abbrev pub micros_per_sec : ℕ
micros_per_sec = 1_000_000

-- `refresh_ttl_secs`.
unfoldable pub refresh_ttl : TokenIssuer → ℕ
refresh_ttl t = min (as_secs t.refresh_ttl) u32_max * micros_per_sec

-- `unix_millis` of a time in microseconds.
unfoldable pub unix_millis : ℕ → ℕ
unix_millis at =
    saturating_add_i64 (min (at / micros_per_sec * 1000) i64_max) (at % micros_per_sec / 1000)

unfoldable pub profile_from : UserRow → UserProfile
unfolding unix_millis
profile_from user = record {
  id = user.id;
  username = user.username;
  email = user.email;
  display_name = user.display_name;
  avatar_url = user.avatar_url;
  email_verified = is_some user.email_verified_at;
  created_at_ms = unix_millis user.created_at;
}

abbrev pub token_pair : IssuedAccess → String → TokenPair
token_pair issued refresh_token = record {
  access_token = issued.token;
  refresh_token = refresh_token;
  token_type = "Bearer";
  expires_in = issued.expires_in;
}

unfoldable pub finish_sign_in :
    AuthService → Option ℕ → UserRow → String → String → Result AuthSession
unfolding profile_from
finish_sign_in s system user session_id refresh_token = do
  issued ← issue_access s.crypto s.tokens system user.id session_id
  ok (record { user = profile_from user; tokens = token_pair issued refresh_token })

abbrev pub refusal : LoginAttempt → Result (Unit {0})
refusal allowed = ok tt
refusal (throttled retry_after_seconds) = err (too_many_attempts retry_after_seconds)
refusal (locked_out_for retry_after_seconds) = err (locked_out retry_after_seconds)

-- Asking is a use of the limiter, so it answers with the store that it leaves.
unfoldable pub refuse_while_limited :
    InProcessLoginAttemptStore → String → ℕ → InProcessLoginAttemptStore × Result (Unit {0})
refuse_while_limited store source instant =
    let (store', answer) = verdict store source instant in (store', refusal answer)

-- `reject`: the failure is counted and not told.
unfoldable pub reject : World → String → ℕ → World × AuthError
reject w source instant = (
  record w { login_attempts = (record_failure w.login_attempts source instant).0 },
  invalid_credentials,
)

abbrev pub ttl_of : AuthService → TokenPurpose → ℕ
ttl_of s email_verification = s.verification_token_ttl
ttl_of s password_reset = s.reset_token_ttl

-- `create_link`: the secret is told once, the table gets its digest.
unfoldable pub create_link :
    AuthService → Supply → Db → String → TokenPurpose → Result (Db × Option String)
create_link s given db user_id purpose = do
  secret ← given.link_secret
  (db', issued) ← issue db given.now (record {
    id = given.link_id;
    user_id = user_id;
    purpose = purpose;
    token_hash = s.crypto.hash_token secret;
    ttl = ttl_of s purpose / 1000;
  })
  ok (db', if issued then some secret else none)

-- The time of the system in the database's unit.
abbrev pub system_micros : Option ℕ → ℕ
system_micros none = 0
system_micros (some elapsed) = elapsed / 1000

-- `refuse_link`: only a link that is unspent and past its time is told apart.
unfoldable pub refuse_link : Supply → Db → String → TokenPurpose → AuthError
refuse_link given db digest purpose = elim (find db digest purpose) [
  | none ↦ token_invalid
  | some stored ↦
      if is_expired (system_micros given.system) stored && not (is_consumed stored)
      then token_expired
      else token_invalid
]
