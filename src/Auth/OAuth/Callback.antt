-- ===== src/Auth/OAuth/Callback.antt =====
-- backend/crates/auth/src/oauth/service.rs: the return from a provider, and the choice of a handle.
pub mod Owner
pub mod Accounts
pub mod Once
use jiuyue.Base.{if◌then◌else◌, ℕ, zero, suc, ◌+◌, not, String, Option, none, some, [], ◌∷◌}
use Prim.Native.String.{◌++◌}
use jiuyue.Contract.{
  OAuthProvider, OAuthCallbackRequest, CompleteOAuthSignInRequest, OAuthCallbackResponse,
}
use jiuyue.Chat.Text.{is_empty_text}
use jiuyue.Auth.Validation.{trim, validate_username_choice, normalize_username, display_name}
use jiuyue.Auth.Errors.{
  AuthError, Result, ok, err, validation, username_taken, email_taken, account_exists,
  oauth_state_invalid, unauthenticated, ◌>>=◌,
}
use jiuyue.Auth.Store.{Db, UserRow, PendingRow}
use jiuyue.Auth.Store.OAuth.{
  StoredOAuthState, NewOAuthAccount, same_provider, consume_state, find_user_by_identity,
  email_is_taken,
}
use jiuyue.Auth.Store.Pending.{
  create_oauth_account, active_pending_session, consume_pending_session_by_id, mint_pending_session,
  claim_username,
}
use jiuyue.Auth.Tokens.{Crypto, TokenIssuer, issue_access}
use jiuyue.Auth.Service.{SessionContext, profile_from, token_pair}
use jiuyue.Auth.OAuth.Client.{OAuthIdentity, not_blank}
use jiuyue.Auth.OAuth.Handles.{max_username_attempts, generated_username, suggested_username}
use jiuyue.Auth.OAuth.SignIn.{
  OAuthService, Attempt, Draws, CallbackOutcome, onboards, signed_in, exchange_identity,
  identity_row, link, open_session, sign_in, onboarding,
}
use jiuyue.Auth.OAuth.Opening.{create_account}

abbrev pub kept_or {ℓ} : {A : Type ℓ} → Db → Result (Db × A) → Db × Result A
kept_or db (err e) = (db, err e)
kept_or db (ok (db', a)) = (db', ok a)

abbrev pub pending_row :
    OAuthService → Draws → OAuthProvider → OAuthIdentity → UserRow → String → PendingRow
pending_row s given provider identity user limited_token = record {
  id = given.pending_id;
  token_hash = s.crypto.hash_token limited_token;
  provider = provider;
  subject = identity.subject;
  user_id = user.id;
  consumed_at = none;
  expires_at = given.now + s.onboarding_ttl;
}

-- The old limited session is spent first, and stays spent when the new one is refused.
unfoldable pub resume_onboarding :
    OAuthService
    → Draws
    → Db
    → OAuthProvider
    → OAuthIdentity
    → UserRow
    → Option String
    → String
    → Db × Result CallbackOutcome
resume_onboarding s given db provider identity user redirect_path previous =
    elim given.limited_token [
      | err e ↦ (db, err e)
      | ok limited_token ↦
          let retired = consume_pending_session_by_id db given.now previous in
          kept_or retired (do
            db' ←
                mint_pending_session retired
                  (pending_row s given provider identity user limited_token)
            ok (
              db',
              onboarding limited_token (suggested_username identity provider) identity
                  redirect_path,
            ))
    ]

-- From the identity that the provider told, on.
unfoldable pub resolve :
    OAuthService
    → Draws
    → Db
    → OAuthProvider
    → OAuthIdentity
    → StoredOAuthState
    → SessionContext
    → Db × Result CallbackOutcome
unfolding create_account resume_onboarding
resolve s given db provider identity state context = elim state.user_id [
  | some user_id ↦ elim (link given db provider identity user_id) [
    | err e ↦ (db, err e)
    | ok linked ↦ kept_or linked (sign_in s given linked user_id state.redirect_path context)
  ]
  | none ↦ elim (find_user_by_identity db provider identity.subject) [
    | none ↦ kept_or db (create_account s given db provider identity state.redirect_path)
    | some user ↦ elim (active_pending_session db given.now provider identity.subject) [
      | none ↦ kept_or db (sign_in s given db user.id state.redirect_path context)
      | some pending_id ↦
          resume_onboarding s given db provider identity user state.redirect_path pending_id
    ]
  ]
]

-- From the state that was spent, on.
unfoldable pub redeem :
    OAuthService
    → Draws
    → Db
    → OAuthCallbackRequest
    → SessionContext
    → StoredOAuthState
    → Db × Result CallbackOutcome
unfolding resolve
redeem s given spent request context state =
    if not (same_provider state.provider request.provider)
    then (spent, err oauth_state_invalid)
    else elim (exchange_identity s request.provider state.code_verifier_hash request.code) [
      | err e ↦ (spent, err e)
      | ok identity ↦ resolve s given spent request.provider identity state context
    ]

unfoldable pub callback :
    OAuthService → Draws → Db → OAuthCallbackRequest → SessionContext → Db × Result CallbackOutcome
unfolding redeem
callback s given db request context =
    let (spent, state) = consume_state db given.now (s.crypto.hash_token request.state) in
    elim state [
      | none ↦ (spent, err oauth_state_invalid)
      | some state ↦ redeem s given spent request context state
    ]

unfoldable pub complete_sign_in :
    OAuthService
    → Draws
    → Db
    → String
    → CompleteOAuthSignInRequest
    → SessionContext
    → Db × Result CallbackOutcome
complete_sign_in s given db limited_token request context =
    let token = trim limited_token in
    if is_empty_text token
    then (db, err unauthenticated)
    else elim (validate_username_choice s.to_lowercase request) [
      | p ∷ ps ↦ (db, err (validation (p ∷ ps)))
      | [] ↦
          let username = normalize_username s.to_lowercase request.username in
          elim (claim_username db given.now (s.crypto.hash_token token) username
            (display_name request.display_name username)) [
              | err e ↦ (db, err e)
              | ok (claimed, user) ↦
                  kept_or claimed (open_session s given claimed user context none)
            ]
    ]

unfoldable pub session_outcome :
    Crypto → TokenIssuer → Option ℕ → CallbackOutcome → Result OAuthCallbackResponse
session_outcome c tokens system (onboards onboarding) =
    ok (record { session = none; onboarding = some onboarding })
session_outcome c tokens system (signed_in user session_id refresh_token redirect_path) = do
  issued ← issue_access c tokens system user.id session_id
  ok (record {
    session = some (record {
      user = profile_from user;
      tokens = token_pair issued refresh_token;
      redirect_path = redirect_path;
    });
    onboarding = none;
  })
