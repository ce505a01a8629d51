-- ===== src/Auth/Service/Recovery.antt =====
-- backend/crates/auth/src/service.rs: the two journeys by email.
use jiuyue.Base.{
  text_key, nat_key, if◌then◌else◌, is_some, ℕ, String, Option, none, some, [], ◌∷◌, ◌++◌,
}
use jiuyue.Contract.{
  UserProfile, ForgotPasswordRequest, ResendVerificationRequest, ResetPasswordRequest,
}
use jiuyue.Chat.Text.{is_empty_text}
use jiuyue.Auth.Errors.{Result, ok, err, validation, token_invalid, ◌>>=◌}
use jiuyue.Auth.Validation.{
  trim, validate_forgot_password, validate_resend_verification, validate_password_reset,
  normalize_email,
}
use jiuyue.Auth.Limiter.Store.{record_failure}
use jiuyue.Auth.Store.{Db, UserRow, email_verification, password_reset, find_user_by_email}
use jiuyue.Auth.Store.Accounts.{mark_email_verified, update_password, revoke_all_sessions}
use jiuyue.Auth.Store.Links.{consume}
use jiuyue.Auth.Mail.{reset_message}
use jiuyue.Auth.Service.{
  AuthService, World, Supply, SessionContext, source, profile_from, refuse_while_limited,
  create_link, refuse_link,
}
use jiuyue.Auth.Service.SignIn.{issue_verification_link}

unfoldable pub redeem_verification : Supply → String → Db × Option String → Db × Result UserProfile
redeem_verification given digest (spent, none) =
    (spent, err (refuse_link given spent digest email_verification))
redeem_verification given digest (spent, some user_id) =
    let (db', marked) = mark_email_verified spent given.now user_id in
    (db', marked >>= λ user. ok (profile_from user))

unfoldable pub verify_email : AuthService → Supply → World → String → World × Result UserProfile
unfolding redeem_verification
verify_email s given w link_token =
    let trimmed = trim link_token in
    if is_empty_text trimmed
    then (w, err token_invalid)
    else (let digest = s.crypto.hash_token trimmed in
        let (db, answer) =
          redeem_verification given digest (consume w.db given.now digest email_verification) in
        (record w { db = db }, answer))

abbrev pub count_request : World → String → ℕ → World
count_request w source instant = record w {
  email_attempts = (record_failure w.email_attempts source instant).0;
}

-- `user.filter(|user| user.email_verified_at.is_none())`.
unfoldable pub resend_to : AuthService → Supply → World → Option UserRow → World
resend_to s given w none = w
resend_to s given w (some user) =
    if is_some user.email_verified_at then w else issue_verification_link s given w user

unfoldable pub resend_verification :
    AuthService
    → Supply
    → World
    → ResendVerificationRequest
    → SessionContext
    → World × Result (Unit {0})
unfolding resend_to
resend_verification s given w request context =
    let (attempts, gate) = refuse_while_limited w.email_attempts (source context) given.instant in
    let seen : World = record w { email_attempts = attempts } in
    elim gate [
      | err e ↦ (seen, err e)
      | ok _ ↦ elim (validate_resend_verification s.to_lowercase request) [
        | p ∷ ps ↦ (seen, err (validation (p ∷ ps)))
        | [] ↦ (
          count_request
              (resend_to s given seen
                (find_user_by_email w.db (normalize_email s.to_lowercase request.email)))
              (source context) given.instant,
          ok tt,
        )
      ]
    ]

-- `issue_reset_link` with its error swallowed. An unknown address gets a new id in place of a User's.
abbrev pub target : Supply → Option UserRow → String
target given none = given.user_id
target given (some user) = user.id

abbrev pub mail_reset : AuthService → World → Option UserRow → Option String → World
mail_reset s w none secret = w
mail_reset s w (some user) none = w
mail_reset s w (some user) (some secret) = record w {
  outbox = w.outbox ++ reset_message user s.public_base_url secret s.reset_token_ttl ∷ [];
}

unfoldable pub issue_reset_link : AuthService → Supply → World → Option UserRow → World
issue_reset_link s given w user =
    elim (create_link s given w.db (target given user) password_reset) [
      | err e ↦ w
      | ok (db, secret) ↦ mail_reset s (record w { db = db }) user secret
    ]

unfoldable pub forgot_password :
    AuthService
    → Supply
    → World
    → ForgotPasswordRequest
    → SessionContext
    → World × Result (Unit {0})
unfolding issue_reset_link
forgot_password s given w request context =
    let (attempts, gate) = refuse_while_limited w.email_attempts (source context) given.instant in
    let seen : World = record w { email_attempts = attempts } in
    elim gate [
      | err e ↦ (seen, err e)
      | ok _ ↦ elim (validate_forgot_password s.to_lowercase request) [
        | p ∷ ps ↦ (seen, err (validation (p ∷ ps)))
        | [] ↦ (
          count_request
              (issue_reset_link s given seen
                (find_user_by_email w.db (normalize_email s.to_lowercase request.email)))
              (source context) given.instant,
          ok tt,
        )
      ]
    ]

-- From the spent link on. An error of the hasher, or an account that is gone, leaves it spent.
unfoldable pub redeem_reset :
    AuthService → Supply → String → String → Db × Option String → Db × Result (Unit {0})
redeem_reset s given digest password (spent, none) =
    (spent, err (refuse_link given spent digest password_reset))
redeem_reset s given digest password (spent, some user_id) =
    elim (s.hasher.hash given.salt password) [
      | err e ↦ (spent, err e)
      | ok phc ↦
          let (db, updated) = update_password spent user_id phc in
          elim updated [
            | err e ↦ (db, err e)
            | ok _ ↦ (revoke_all_sessions db given.now user_id, ok tt)
          ]
    ]

-- The token is not trimmed, as that of `verify_email` is.
unfoldable pub reset_password :
    AuthService → Supply → World → ResetPasswordRequest → SessionContext → World × Result (Unit {0})
unfolding redeem_reset
reset_password s given w request context =
    let (attempts, gate) = refuse_while_limited w.email_attempts (source context) given.instant in
    let seen : World = record w { email_attempts = attempts } in
    elim gate [
      | err e ↦ (seen, err e)
      | ok _ ↦ elim (validate_password_reset request) [
        | p ∷ ps ↦ (seen, err (validation (p ∷ ps)))
        | [] ↦
            let digest = s.crypto.hash_token request.token in
            let (db, answer) =
              redeem_reset s given digest request.password
                (consume w.db given.now digest password_reset) in
            (record seen { db = db }, answer)
      ]
    ]
