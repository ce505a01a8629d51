-- ===== src/Auth/Service/Tests.antt =====
-- The identity module at concrete inputs.
pub mod Plain
pub mod Recovery
use jiuyue.Base.{
  text_key, nat_key, leb, if◌then◌else◌, text_discrete, ◌+◌, ◌-◌, String, ◌≡◌, refl, ◌≢◌, true,
  false, none, some, [], ◌∷◌, arith,
}
use jiuyue.Base.Map.{retain, lookup, insert, remove}
use jiuyue.Base.Word.{from_secs, as_secs}
use jiuyue.Contract.{
  LoginRequest, ForgotPasswordRequest, ResetPasswordRequest, UserProfile, AuthSession,
}
use jiuyue.Chat.Ident.{is_ulid, is_crockford}
use jiuyue.Auth.Errors.{ok, Result, err, token}
use jiuyue.Auth.Limiter.Policy.{sanitized}
use jiuyue.Auth.Limiter.Attempt
use jiuyue.Auth.Limiter.Store
use jiuyue.Auth.Tokens.{
  AccessClaims, IssuedAccess, issue_access, verify_access, now_seconds, leeway,
}
use jiuyue.Chat.Text.{trim_start, trim_end}
use jiuyue.Auth.Validation.{
  split, is_valid_email, is_strong_password, check_email, check_password as check_new_password,
  validate_login, validate_forgot_password, validate_resend_verification, validate_password_reset,
}
use jiuyue.Auth.Validation
use jiuyue.Auth.Mail.{human_ttl}
use jiuyue.Auth.Store.{
  Db, SessionRow, UserRow, email_verification, password_reset, find_user_by_email, find_user_by_id,
}
use jiuyue.Auth.Service.Recovery.{
  verify_email, redeem_verification, resend_to, resend_verification, issue_reset_link,
  forgot_password, redeem_reset, reset_password,
}
use jiuyue.Auth.Service.Requests.{Request, logs_in, logs_out, resends, forgets, step, run}
use jiuyue.Auth.Service.Sessions.{logout-ends}
use jiuyue.Auth.Service.Links.{verify_email-once, forgot_password-oblivious}
use jiuyue.Auth.Service.Effects.{reset_password-Resets}
use jiuyue.Auth.Service.Opened.{InTime}
use jiuyue.Auth.Service.Login.{login-authenticates}
use jiuyue.Auth.Store.Redeemed.{consume-once}
use jiuyue.Auth.Store.Statements.{Runs, here, next, on_accounts, revokes}
use jiuyue.Auth.Tokens.Expiry.{verify_access-issue_access}
use jiuyue.Auth.Store.Accounts.{
  create_session, find_active_session_by_id, revoke_session, revoke_all_sessions, update_password,
  mark_email_verified,
}
use jiuyue.Auth.Store.Links.{issue, retire, consume, find}
use jiuyue.Auth.Service.{
  World, source, refuse_while_limited, finish_sign_in, profile_from, refresh_ttl, unix_millis,
  create_link,
}
use jiuyue.Auth.Service.SignIn.{
  issue_verification_link, login, check_password, open_session, insert_session, authenticate,
  logout, system_secs,
}
use jiuyue.Auth.Service.Tests.Plain.{
  plain, bare, service, alice, home, start, second, first_id, next_id,
}

program : Unit {0}
unfolding text_discrete retain lookup insert remove is_ulid is_crockford sanitized Store.verdict
    Store.new Store.record_success Store.record_failure Attempt.verdict now_seconds issue_access
    verify_access create_session find_active_session_by_id revoke_session revoke_all_sessions
    update_password mark_email_verified issue retire consume find source refuse_while_limited
    finish_sign_in profile_from refresh_ttl unix_millis create_link login check_password
    open_session insert_session authenticate logout trim_start trim_end split is_valid_email
    is_strong_password check_email check_new_password validate_login validate_forgot_password
    validate_resend_verification validate_password_reset issue_verification_link redeem_verification
    verify_email resend_to resend_verification issue_reset_link forgot_password redeem_reset
    reset_password step run
program = tt

abbrev known : LoginRequest
known = record { email = "alice@example.com"; password = "correct horse" }

abbrev opened : World × Result AuthSession
opened = login (λ db. db) service (second 5 first_id) start known home

abbrev claims : AccessClaims
claims = record { sub = alice.id; sid = first_id; iat = 5; exp = 25 }

abbrev access : String
access = plain.sign claims

abbrev signed : AuthSession
signed = record {
  user = record {
    id = alice.id;
    username = "alice";
    email = "alice@example.com";
    display_name = "Alice";
    avatar_url = none;
    email_verified = false;
    created_at_ms = 0;
  };
  tokens = record {
    access_token = access;
    refresh_token = first_id;
    token_type = "Bearer";
    expires_in = 20;
  };
}

abbrev row : SessionRow
row = record { id = first_id; user_id = alice.id; username = "alice" }

opened_well : authenticate service (second 9 next_id) opened.0.db access ≡ ok row
unfolding program
opened_well = refl

login-authenticates_example :
    ((user : UserRow) × (phc : String) × (find_user_by_email start.db "alice@example.com"
        ≡ some user)
      × (user.password_hash ≡ some phc)
      × (bare.verify "correct horse" phc ≡ ok true)
      × (signed.user.id ≡ user.id))
    × ((found : SessionRow) × (authenticate service
            (second 9 next_id)
            opened.0.db
            signed.tokens.access_token
          ≡ ok found)
        × (found.id ≡ first_id)
        × (found.user_id ≡ signed.user.id))
unfolding program
login-authenticates_example =
    login-authenticates (λ db. db) service (second 5 first_id) (second 9 next_id) start known home
      (from_secs 5) signed
      (record { clock = refl; in_range = omega arith; token = omega arith; session = omega arith })
      refl

verify_access-issue_access_example :
    (issue : IssuedAccess) × (issue_access plain service.tokens
        (some (from_secs 5))
        alice.id
        first_id
      ≡ ok issue)
    × (issue.expires_in ≡ 20)
    × (verify_access plain issue.token 86 ≡ (
        if leb 86 (5 + issue.expires_in + leeway)
        then ok (record { sub = alice.id; sid = first_id; iat = 5; exp = 5 + issue.expires_in })
        else err token))
unfolding program
verify_access-issue_access_example =
    verify_access-issue_access plain service.tokens (from_secs 5) 86 alice.id first_id (omega arith)

logout-ends_example :
    authenticate service
      (second 7 next_id)
      (run service
        (logout service (second 6 next_id) opened.0 access).0
        (logs_in (second 6 next_id) known home ∷ [])).db
      access
    ≢ ok row
unfolding program
logout-ends_example =
    logout-ends service (second 6 next_id) (second 7 next_id) opened.0 access access claims claims
      (logs_in (second 6 next_id) known home ∷ []) row refl refl refl refl refl
