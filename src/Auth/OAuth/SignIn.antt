-- ===== src/Auth/OAuth/SignIn.antt =====
-- backend/crates/auth/src/oauth/service.rs: the use cases of third-party sign-in. The database and
-- the providers answer; what is drawn and told by a clock comes with a request (`Draws`).
use jiuyue.Base.{
  if◌then◌else◌, same, any, ℕ, ◌*◌, String, Bool, true, false, not, ◌&&◌, Option, none, some, List,
  [], ◌∷◌, ◌==◌,
}
use jiuyue.Contract.{OAuthProvider, OAuthOnboarding, invalid_format}
use jiuyue.Chat.Ident.{codes}
use jiuyue.Chat.Text.{is_whitespace, is_empty_text}
use jiuyue.Auth.Validation.{trim, problem}
use jiuyue.Auth.Errors.{
  Result, ok, err, validation, account_missing, oauth_identity_taken, oauth_state_invalid, ok_or,
  ◌>>=◌,
}
use jiuyue.Auth.Tokens.{Crypto}
use jiuyue.Auth.Store.{Db, UserRow, IdentityRow, find_user_by_id}
use jiuyue.Auth.Store.Accounts.{NewSession, create_session}
use jiuyue.Auth.Store.OAuth.{insert_state, identity_owner, link_identity}
use jiuyue.Auth.Service.{SessionContext, micros_per_sec}
use jiuyue.Auth.OAuth.{OAuthProviders, Wire, require_provider, authorization_url, from_state_token}
use jiuyue.Auth.OAuth.Client.{OAuthIdentity, token_request, access_token, fetch_identity, not_blank}
use jiuyue.Auth.OAuth.Handles.{Random}

-- What the service is built with. Lifetimes are in microseconds.
pub record OAuthService : Type 0 where
  pub crypto : Crypto
  pub wire : Wire
  pub to_lowercase : String → String
  pub version : String
  pub providers : OAuthProviders
  pub state_ttl : ℕ
  pub onboarding_ttl : ℕ
  pub public_base_url : String

-- What one turn of the loop over handles draws.
pub record Attempt : Type 0 where
  pub random : Random
  pub user_id : String
  pub pending_id : String
  pub identity_id : String
  pub limited_token : Result String

pub record Draws : Type 0 where
  pub now : ℕ
  pub state_id : String
  pub state_token : Result String
  pub attempts : ℕ → Attempt
  pub identity_id : String
  pub pending_id : String
  pub limited_token : Result String
  pub session_id : String
  pub refresh_token : Result String

pub data CallbackOutcome : Type 0 where
  signed_in : UserRow → String → String → Option String → CallbackOutcome
  onboards : OAuthOnboarding → CallbackOutcome

abbrev pub starts_slash : List ℕ → Bool
starts_slash [] = false
starts_slash (c ∷ cs) = c == b'/'

abbrev pub starts_slashes : List ℕ → Bool
starts_slashes [] = false
starts_slashes (c ∷ cs) = (c == b'/') && starts_slash cs

abbrev starts_scheme : List ℕ → Bool
starts_scheme [] = false
starts_scheme (c ∷ cs) = (c == b':') && starts_slashes cs

abbrev has_scheme : List ℕ → Bool
has_scheme [] = false
has_scheme (c ∷ cs) = let rest = has_scheme cs in if starts_scheme (c ∷ cs) then true else rest

unfoldable pub is_relative_path : String → Bool
is_relative_path path =
    starts_slash (codes path)
    && (not (starts_slashes (codes path))
        && (not (has_scheme (codes path)) && not (any is_whitespace (codes path))))

-- `return_to`, trimmed; a blank one is none.
unfoldable pub redirect_path_of : Option String → Result (Option String)
unfolding is_relative_path
redirect_path_of return_to = elim (not_blank return_to) [
  | none ↦ ok none
  | some path ↦
      if is_relative_path (trim path)
      then ok (some (trim path))
      else err (validation (problem "return_to" invalid_format "返回地址必须是站内相对路径" ∷ []))
]

-- The part of `start` that writes: the state, and the challenge that goes with it.
unfoldable pub begin :
    OAuthService → Draws → Db → OAuthProvider → Option String → Option String → Result (Db × String)
unfolding redirect_path_of
begin s given db provider return_to user_id = do
  config ← require_provider s.providers provider
  redirect_path ← redirect_path_of return_to
  state_token ← given.state_token
  db' ← insert_state db given.now (record {
    id = given.state_id;
    state_hash = s.crypto.hash_token state_token;
    provider = provider;
    code_verifier_hash = (from_state_token s.crypto s.wire state_token).verifier;
    redirect_path = redirect_path;
    user_id = user_id;
    ttl = s.state_ttl;
  })
  ok (db', state_token)

unfoldable pub start :
    OAuthService → Draws → Db → OAuthProvider → Option String → Option String → Db × Result String
unfolding begin
start s given db provider return_to user_id = elim (begin s given db provider return_to user_id) [
  | err e ↦ (db, err e)
  | ok (db', state_token) ↦ (
    db',
    require_provider s.providers provider >>= (λ config.
        authorization_url s.wire config s.public_base_url state_token
          (from_state_token s.crypto s.wire state_token).challenge),
  )
]

unfoldable pub exchange_identity :
    OAuthService → OAuthProvider → String → String → Result OAuthIdentity
exchange_identity s provider code_verifier_hash code =
    if is_empty_text (trim code) then err oauth_state_invalid else (do
      config ← require_provider s.providers provider
      request ← token_request s.wire config s.public_base_url code code_verifier_hash
      response ← s.wire.send request
      token ← access_token s.wire provider response
      fetch_identity s.to_lowercase s.wire s.version provider token)

abbrev pub identity_row : String → String → OAuthProvider → OAuthIdentity → IdentityRow
identity_row id user_id provider identity = record {
  id = id;
  user_id = user_id;
  provider = provider;
  subject = identity.subject;
  display_name = identity.display_name;
  email = identity.email;
  email_verified = identity.email_verified;
}

-- Losing the unique index to another link is the same refusal.
abbrev pub unless_taken : Db × Bool → Result Db
unless_taken (db, true) = ok db
unless_taken (db, false) = err oauth_identity_taken

unfoldable pub link : Draws → Db → OAuthProvider → OAuthIdentity → String → Result Db
link given db provider identity user_id = elim (identity_owner db provider identity.subject) [
  | none ↦
      link_identity db (identity_row given.identity_id user_id provider identity) >>= unless_taken
  | some owner ↦ if same owner user_id then ok db else err oauth_identity_taken
]

-- `refresh_ttl_secs`: the default of `AuthConfig`, thirty days.
abbrev pub oauth_refresh_ttl : ℕ
oauth_refresh_ttl = 2_592_000 * micros_per_sec

abbrev pub oauth_session : OAuthService → Draws → UserRow → SessionContext → String → NewSession
oauth_session s given user context refresh_token = record {
  id = given.session_id;
  user_id = user.id;
  refresh_token_hash = s.crypto.hash_token refresh_token;
  device_label = context.device_label;
  user_agent = context.user_agent;
  ip_address = context.ip_address;
  refresh_ttl = oauth_refresh_ttl;
}

unfoldable pub open_session :
    OAuthService
    → Draws
    → Db
    → UserRow
    → SessionContext
    → Option String
    → Result (Db × CallbackOutcome)
open_session s given db user context redirect_path = do
  refresh_token ← given.refresh_token
  db' ← create_session db (oauth_session s given user context refresh_token) given.now
  ok (db', signed_in user given.session_id refresh_token redirect_path)

unfoldable pub sign_in :
    OAuthService
    → Draws
    → Db
    → String
    → Option String
    → SessionContext
    → Result (Db × CallbackOutcome)
unfolding open_session
sign_in s given db user_id redirect_path context = do
  user ← ok_or (find_user_by_id db user_id) account_missing
  open_session s given db user context redirect_path

abbrev pub onboarding : String → String → OAuthIdentity → Option String → CallbackOutcome
onboarding limited_token suggested identity redirect_path = onboards (record {
  limited_token = limited_token;
  suggested_username = suggested;
  email = identity.email;
  redirect_path = redirect_path;
})
