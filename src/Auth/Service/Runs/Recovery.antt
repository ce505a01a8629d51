-- ===== src/Auth/Service/Runs/Recovery.antt =====
-- The runs of the two journeys by email.
use jiuyue.Base.{
  text_key, nat_key, Bool-cases, is_some, is_empty, String, refl, inl, inr, Option, none, some,
  arith,
}
use jiuyue.Contract.{ForgotPasswordRequest, ResendVerificationRequest, ResetPasswordRequest}
use jiuyue.Auth.Errors.{Result-cases}
use jiuyue.Auth.Store.Links.{consume}
use jiuyue.Auth.Validation.{
  normalize_email, trim, validate_resend_verification, validate_forgot_password,
  validate_password_reset,
}
use jiuyue.Chat.Text.{is_empty_text}
use jiuyue.Auth.Store.{Db, UserRow, email_verification, password_reset, find_user_by_email}
use jiuyue.Auth.Store.Accounts.{update_password}
use jiuyue.Auth.Store.Statements.{
  Runs, here, next, Runs-trans, on_accounts, on_links, verifies, changes_password, revokes_all,
  consumes,
}
use jiuyue.Auth.Service.{
  AuthService, World, Supply, SessionContext, create_link, source, refuse_while_limited,
}
use jiuyue.Auth.Service.Recovery.{
  target, redeem_verification, redeem_reset, verify_email, resend_verification, issue_reset_link,
  forgot_password, reset_password, resend_to,
}
use jiuyue.Auth.Service.Runs.{one, ending, create_link-Runs}
use jiuyue.Auth.Service.Runs.SignIn.{issue_verification_link-Runs}

issue_reset_link-Runs :
    (s : AuthService) (given : Supply) (w : World) (user : Option UserRow)
    → Runs w.db (issue_reset_link s given w user).db
unfolding issue_reset_link
issue_reset_link-Runs s given w user =
    elim (Result-cases (create_link s given w.db (target given user) password_reset)) [
      | inl (e, h) ↦ ending (ground (arith, h)) here
      | inr ((db', secret), h) ↦
          ending {y = db'} (ground (arith, h))
            (create_link-Runs s given w.db (target given user) password_reset db' secret h)
    ]

pub redeem_verification-Runs :
    (given : Supply) (digest : String) (spent : Db) (owner : Option String)
    → Runs spent (redeem_verification given digest (spent, owner)).0
unfolding redeem_verification
redeem_verification-Runs given digest spent none = here
redeem_verification-Runs given digest spent (some user) =
    one (on_accounts (verifies given.now user refl))

redeem_reset-Runs :
    (s : AuthService) (given : Supply) (digest password : String) (spent : Db)
    (owner : Option String)
    → Runs spent (redeem_reset s given digest password (spent, owner)).0
unfolding redeem_reset
redeem_reset-Runs s given digest password spent none = here
redeem_reset-Runs s given digest password spent (some user) =
    elim (Result-cases (s.hasher.hash given.salt password)) [
      | inl (e, h) ↦ ending (ground (arith, h)) here
      | inr (phc, h) ↦
          let changed = one (on_accounts (changes_password user phc refl)) in
          elim (Result-cases (update_password spent user phc).1) [
            | inl (e, k) ↦ ending (ground (arith, h, k)) changed
            | inr (_, k) ↦
                ending (ground (arith, h, k))
                  (next changed (on_accounts (revokes_all given.now user refl)))
          ]
    ]

pub verify_email-Runs :
    (s : AuthService) (given : Supply) (w : World) (token : String)
    → Runs w.db (verify_email s given w token).0.db
unfolding verify_email
verify_email-Runs s given w token =
    let digest = s.crypto.hash_token (trim token) in
    let (spent, owner) = consume w.db given.now digest email_verification in
    elim (Bool-cases (is_empty_text (trim token))) [
      | inl blank ↦ ending (ground (arith, blank)) here
      | inr given_one ↦ ending (ground (arith, given_one)) (
          Runs-trans (one (on_links (consumes given.now digest email_verification refl)))
            (redeem_verification-Runs given digest spent owner))
    ]

resend_to-Runs :
    (s : AuthService) (given : Supply) (w : World) (user : Option UserRow)
    → Runs w.db (resend_to s given w user).db
unfolding resend_to
resend_to-Runs s given w none = here
resend_to-Runs s given w (some user) = elim (Bool-cases (is_some user.email_verified_at)) [
  | inl e ↦ ending (ground (arith, e)) here
  | inr e ↦ ending (ground (arith, e)) (issue_verification_link-Runs s given w user)
]

pub resend_verification-Runs :
    (s : AuthService) (given : Supply) (w : World) (request : ResendVerificationRequest)
    (context : SessionContext)
    → Runs w.db (resend_verification s given w request context).0.db
unfolding resend_verification
resend_verification-Runs s given w request context =
    let (attempts, gate) = refuse_while_limited w.email_attempts (source context) given.instant in
    let seen : World = record w { email_attempts = attempts } in
    let user = find_user_by_email w.db (normalize_email s.to_lowercase request.email) in
    elim (Result-cases gate) [
      | inl (e, h) ↦ ending (ground (arith, h)) here
      | inr (_, h) ↦
          elim (Bool-cases (is_empty (validate_resend_verification s.to_lowercase request))) [
            | inr refused ↦ ending (ground (arith, h, refused)) here
            | inl valid ↦ ending (ground (arith, h, valid)) (resend_to-Runs s given seen user)
          ]
    ]

pub forgot_password-Runs :
    (s : AuthService) (given : Supply) (w : World) (request : ForgotPasswordRequest)
    (context : SessionContext)
    → Runs w.db (forgot_password s given w request context).0.db
unfolding forgot_password
forgot_password-Runs s given w request context =
    let (attempts, gate) = refuse_while_limited w.email_attempts (source context) given.instant in
    let seen : World = record w { email_attempts = attempts } in
    let user = find_user_by_email w.db (normalize_email s.to_lowercase request.email) in
    elim (Result-cases gate) [
      | inl (e, h) ↦ ending (ground (arith, h)) here
      | inr (_, h) ↦
          elim (Bool-cases (is_empty (validate_forgot_password s.to_lowercase request))) [
            | inr refused ↦ ending (ground (arith, h, refused)) here
            | inl valid ↦
                ending (ground (arith, h, valid)) (issue_reset_link-Runs s given seen user)
          ]
    ]

pub reset_password-Runs :
    (s : AuthService) (given : Supply) (w : World) (request : ResetPasswordRequest)
    (context : SessionContext)
    → Runs w.db (reset_password s given w request context).0.db
unfolding reset_password
reset_password-Runs s given w request context =
    let (attempts, gate) = refuse_while_limited w.email_attempts (source context) given.instant in
    let digest = s.crypto.hash_token request.token in
    let (spent, owner) = consume w.db given.now digest password_reset in
    elim (Result-cases gate) [
      | inl (e, h) ↦ ending (ground (arith, h)) here
      | inr (_, h) ↦ elim (Bool-cases (is_empty (validate_password_reset request))) [
        | inr refused ↦ ending (ground (arith, h, refused)) here
        | inl valid ↦ ending (ground (arith, h, valid)) (
            Runs-trans (one (on_links (consumes given.now digest password_reset refl)))
              (redeem_reset-Runs s given digest request.password spent owner))
      ]
    ]
