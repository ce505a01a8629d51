-- ===== src/Auth/Service/Links.antt =====
-- What a link is good for: once, for a password that then works and for the end of every session.
use jiuyue.Base.{
  text_key, nat_key, Option-cases, is_empty, ◌≤◌, String, ◌≡◌, sym, ap, subst, ◌∙◌, ◌≢◌, inl, inr,
  false, Option, none, some, List, arith,
}
use jiuyue.Contract.{UserProfile, ForgotPasswordRequest}
use jiuyue.Chat.Text.{is_empty_text}
use jiuyue.Auth.Limiter.Store.{InProcessLoginAttemptStore, record_failure}
use jiuyue.Auth.Errors.{require, validation, ◌>>◌, Result, ok, err}
use jiuyue.Auth.Validation.{trim, validate_forgot_password, normalize_email}
use jiuyue.Auth.Store.{UserRow, email_verification, find_user_by_email}
use jiuyue.Auth.Store.Links.{consume}
use jiuyue.Auth.Store.Redeemed.{consume-once}
use jiuyue.Auth.Store.Statements.{Runs, Runs-trans}
use jiuyue.Auth.Service.{AuthService, World, Supply, SessionContext, refuse_while_limited, source}
use jiuyue.Auth.Service.Recovery.{
  verify_email, redeem_verification, issue_reset_link, forgot_password,
}
use jiuyue.Auth.Service.Runs.Recovery.{redeem_verification-Runs}
use jiuyue.Auth.Service.Requests.{Request, run, run-Runs}

abbrev digest_of : AuthService → String → String
digest_of s token = s.crypto.hash_token (trim token)

-- What an accepted verification has done: the link was there, and is spent.
verify_email-consumed :
    (s : AuthService) (given : Supply) (w : World) (token : String) (profile : UserProfile)
    → (verify_email s given w token).1 ≡ ok profile
    → (user : String) × ((consume w.db given.now (digest_of s token) email_verification).1
        ≡ some user)
      × Runs
          (consume w.db given.now (digest_of s token) email_verification).0
          (verify_email s given w token).0.db
unfolding verify_email
verify_email-consumed s given w token profile h =
    let digest = digest_of s token in
    let spent = (consume w.db given.now digest email_verification).0 in
    let owner = (consume w.db given.now digest email_verification).1 in
    let filled : is_empty_text (trim token) ≡ false = ground (arith, h) in
    let db' : (verify_email s given w token).0.db
        ≡ (redeem_verification given digest (spent, owner)).0 =
      ground (arith, filled) in
    elim (Option-cases owner) [
      | inl e ↦ absurd (unfold redeem_verification in ground (arith, filled, e, h))
      | inr (user, e) ↦ (
        user,
        e,
        subst (Runs spent) (sym db') (redeem_verification-Runs given digest spent owner),
      )
    ]

-- A verification link works once: after it was accepted it is refused at any later time, whatever
-- requests came in between.
pub verify_email-once :
    (s : AuthService) (given later : Supply) (w : World) (token : String) (rs : List Request)
    (profile : UserProfile)
    → (verify_email s given w token).1 ≡ ok profile
    → given.now ≤ later.now
    → (again : UserProfile)
    → (verify_email s later (run s (verify_email s given w token).0 rs) token).1 ≢ ok again
unfolding verify_email redeem_verification
verify_email-once s given later w token rs profile h time again k =
    let w' = (verify_email s given w token).0 in
    let (user, redeemed, ran) = verify_email-consumed s given w token profile h in
    let refused =
      consume-once w.db (run s w' rs).db given.now later.now (digest_of s token) email_verification
        user redeemed (Runs-trans ran (run-Runs s w' rs)) time in
    ground (arith, refused, k)

issue_reset_link-email_attempts :
    (s : AuthService) (given : Supply) (w : World) (user : Option UserRow)
    → (issue_reset_link s given w user).email_attempts ≡ w.email_attempts
unfolding issue_reset_link
issue_reset_link-email_attempts s given w none = ground arith
issue_reset_link-email_attempts s given w (some user) = ground arith

-- What `forgot_password` answers, and what its limiter is left with, from the limiter alone.
abbrev answer_from :
    AuthService
    → Supply
    → ForgotPasswordRequest
    → SessionContext
    → InProcessLoginAttemptStore
    → Result (Unit {0})
answer_from s given request context attempts =
    let (attempts', gate) = refuse_while_limited attempts (source context) given.instant in
    gate
    >> (let problems = validate_forgot_password s.to_lowercase request in
        require (is_empty problems) (validation problems))

abbrev limiter_after :
    AuthService
    → Supply
    → ForgotPasswordRequest
    → SessionContext
    → InProcessLoginAttemptStore
    → InProcessLoginAttemptStore
limiter_after s given request context attempts =
    let (attempts', gate) = refuse_while_limited attempts (source context) given.instant in
    elim (answer_from s given request context attempts) [
      | err e ↦ attempts'
      | ok _ ↦ (record_failure attempts' (source context) given.instant).0
    ]

forgot_password-charge :
    (s : AuthService) (given : Supply) (w : World) (request : ForgotPasswordRequest)
    (context : SessionContext)
    → ((forgot_password s given w request context).1
        ≡ answer_from s given request context w.email_attempts)
      × ((forgot_password s given w request context).0.email_attempts
          ≡ limiter_after s given request context w.email_attempts)
unfolding forgot_password
forgot_password-charge s given w request context =
    let (attempts, gate) = refuse_while_limited w.email_attempts (source context) given.instant in
    let seen : World = record w { email_attempts = attempts } in
    let user = find_user_by_email w.db (normalize_email s.to_lowercase request.email) in
    let kept = issue_reset_link-email_attempts s given seen user in
    (ground arith, ground (arith, kept))

-- The answer to a request for a reset link, and what it costs its source, do not depend on the
-- accounts: two states of the tables that may differ in everything give the same answer, and leave
-- the limiter the same.
pub forgot_password-oblivious :
    (s : AuthService) (given : Supply) (w w' : World) (request : ForgotPasswordRequest)
    (context : SessionContext)
    → w.email_attempts ≡ w'.email_attempts
    → ((forgot_password s given w request context).1
        ≡ (forgot_password s given w' request context).1)
      × ((forgot_password s given w request context).0.email_attempts
          ≡ (forgot_password s given w' request context).0.email_attempts)
forgot_password-oblivious s given w w' request context e =
    let (answered, left) = forgot_password-charge s given w request context in
    let (answered', left') = forgot_password-charge s given w' request context in
    (
      answered ∙ ap (answer_from s given request context) e ∙ sym answered',
      left ∙ ap (limiter_after s given request context) e ∙ sym left',
    )
