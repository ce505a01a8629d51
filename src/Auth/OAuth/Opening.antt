-- ===== src/Auth/OAuth/Opening.antt =====
-- backend/crates/auth/src/oauth/service.rs, `create_account`: a new account for an identity that no
-- account is bound to.
use jiuyue.Base.{if◌then◌else◌, ℕ, zero, suc, String, Option, none, some}
use Prim.Native.String.{◌++◌}
use jiuyue.Contract.{OAuthProvider}
use jiuyue.Auth.Errors.{
  AuthError, Result, ok, err, username_taken, email_taken, account_exists, ◌>>=◌,
}
use jiuyue.Auth.Store.{Db}
use jiuyue.Auth.Store.OAuth.{NewOAuthAccount, email_is_taken}
use jiuyue.Auth.Store.Pending.{create_oauth_account}
use jiuyue.Auth.OAuth.Client.{OAuthIdentity, not_blank}
use jiuyue.Auth.OAuth.Handles.{max_username_attempts, generated_username, suggested_username}
use jiuyue.Auth.OAuth.SignIn.{
  OAuthService, Attempt, Draws, CallbackOutcome, identity_row, onboarding,
}

abbrev pub or_text : Option String → String → String
or_text none text = text
or_text (some s) text = s

abbrev pub email_guard : Db → Option String → Result (Unit {0})
email_guard db none = ok tt
email_guard db (some email) = if email_is_taken db email then err account_exists else ok tt

abbrev pub new_account :
    OAuthService → Attempt → OAuthProvider → OAuthIdentity → String → String → NewOAuthAccount
new_account s drawn provider identity username limited_token = record {
  user_id = drawn.user_id;
  username = username;
  email = or_text identity.email (username ++ "@oauth.invalid");
  display_name = or_text (not_blank identity.display_name) username;
  email_verified = identity.email_verified;
  identity = identity_row drawn.identity_id drawn.user_id provider identity;
  pending_id = drawn.pending_id;
  pending_token_hash = s.crypto.hash_token limited_token;
  pending_ttl = s.onboarding_ttl;
}

-- What a turn of the loop draws: the account that it tries, and the token of its limited session.
unfoldable pub prepare :
    OAuthService
    → Attempt
    → OAuthProvider
    → OAuthIdentity
    → String
    → ℕ
    → Result (NewOAuthAccount × String)
prepare s drawn provider identity base attempt = do
  username ← generated_username drawn.random base attempt
  limited_token ← drawn.limited_token
  ok (new_account s drawn provider identity username limited_token, limited_token)

-- An error of the insertion ends the loop, but for a handle that is taken.
abbrev pub ends : AuthError → Option AuthError
ends username_taken = none
ends email_taken = some account_exists
ends error = some error

-- `attempt` counts up while `left` counts down from `MAX_USERNAME_ATTEMPTS`.
unfoldable pub create_attempts :
    OAuthService
    → Draws
    → Db
    → OAuthProvider
    → OAuthIdentity
    → String
    → Option String
    → ℕ
    → ℕ
    → Result (Db × CallbackOutcome)
unfolding prepare
create_attempts s given db provider identity base redirect_path zero attempt = err username_taken
create_attempts s given db provider identity base redirect_path (suc left) attempt =
    let again =
      create_attempts s given db provider identity base redirect_path left (suc attempt) in
    prepare s (given.attempts attempt) provider identity base attempt
    >>= (λ (account, limited_token). elim (create_oauth_account db given.now account) [
      | ok (db', user) ↦ ok (db', onboarding limited_token account.username identity redirect_path)
      | err e ↦ elim (ends e) [ none ↦ again | some error ↦ err error ]
    ])

unfoldable pub create_account :
    OAuthService
    → Draws
    → Db
    → OAuthProvider
    → OAuthIdentity
    → Option String
    → Result (Db × CallbackOutcome)
unfolding create_attempts
create_account s given db provider identity redirect_path = email_guard db identity.email >>= (λ _.
    create_attempts s given db provider identity (suggested_username identity provider)
      redirect_path max_username_attempts 0)
