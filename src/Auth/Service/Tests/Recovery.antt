-- ===== src/Auth/Service/Tests/Recovery.antt =====
-- The journeys by email at concrete inputs, and a reset while a sign-in runs.
use jiuyue.Base.{
  text_key, nat_key, text_discrete, String, ◌≡◌, refl, ◌≢◌, none, some, [], ◌∷◌, arith,
}
use jiuyue.Base.Map.{retain, lookup, insert, remove}
use jiuyue.Chat.Ident.{is_ulid, is_crockford}
use jiuyue.Auth.Errors.{ok, Result}
use jiuyue.Auth.Limiter.Policy.{sanitized}
use jiuyue.Auth.Limiter.Attempt
use jiuyue.Auth.Limiter.Store
use jiuyue.Auth.Tokens.{issue_access, verify_access, now_seconds}
use jiuyue.Auth.Service.Tests.Plain.{
  plain, bare, service, alice, home, start, second, first_id, next_id,
}
use jiuyue.Contract.{LoginRequest, ForgotPasswordRequest, ResetPasswordRequest, UserProfile}
use jiuyue.Auth.Service.{
  profile_from, create_link, source, World, refuse_while_limited, finish_sign_in, refresh_ttl,
  unix_millis,
}
use jiuyue.Auth.Service.Recovery.{
  verify_email, redeem_verification, resend_to, resend_verification, issue_reset_link,
  forgot_password, redeem_reset, reset_password,
}
use jiuyue.Auth.Service.Requests.{forgets, step, run}
use jiuyue.Auth.Service.Links.{verify_email-once, forgot_password-oblivious}
use jiuyue.Auth.Service.Effects.{reset_password-Resets}
use jiuyue.Auth.Store.Redeemed.{consume-once}
use jiuyue.Auth.Store.Statements.{here, next, on_accounts, revokes}
use jiuyue.Auth.Store.{SessionRow, UserRow, password_reset, find_user_by_id}
use jiuyue.Auth.Store.Accounts.{
  create_session, find_active_session_by_id, revoke_session, revoke_all_sessions, update_password,
  mark_email_verified,
}
use jiuyue.Auth.Store.Links.{issue, retire, consume, find}
use jiuyue.Auth.Mail.{human_ttl, decimal}
use jiuyue.Auth.Validation.{
  split, is_valid_email, is_strong_password, check_email, check_password as check_new_password,
  validate_login, validate_forgot_password, validate_resend_verification, validate_password_reset,
}
use jiuyue.Chat.Text.{trim_start, trim_end}
use jiuyue.Auth.Service.SignIn.{
  issue_verification_link, login, check_password, open_session, insert_session, authenticate,
  logout,
}

program : Unit {0}
unfolding text_discrete retain lookup insert remove is_ulid is_crockford sanitized Store.verdict
    Store.new Store.record_success Store.record_failure Attempt.verdict Attempt.record_failure
    Attempt.new now_seconds issue_access verify_access create_session find_active_session_by_id
    revoke_session revoke_all_sessions update_password mark_email_verified issue retire consume find
    source refuse_while_limited finish_sign_in profile_from refresh_ttl unix_millis create_link
    login check_password open_session insert_session authenticate logout trim_start trim_end split
    is_valid_email is_strong_password check_email check_new_password validate_login
    validate_forgot_password validate_resend_verification validate_password_reset
    issue_verification_link redeem_verification verify_email resend_to resend_verification
    issue_reset_link forgot_password redeem_reset reset_password step run
program = tt

abbrev asks : ForgotPasswordRequest
asks = record { email = "alice@example.com" }

abbrev asked : World
asked = (forgot_password service (second 5 first_id) start asks home).0

abbrev digest : String
digest = "#01BRZ3NDEKTSV4RRFFQ69G5FAV"

consume-once_example :
    (consume
      (revoke_session (consume asked.db 6_000_000 digest password_reset).0 7 next_id)
      8_000_000
      digest
      password_reset).1
    ≡ none
unfolding program
consume-once_example =
    consume-once asked.db
      (revoke_session (consume asked.db 6_000_000 digest password_reset).0 7 next_id) 6_000_000
      8_000_000 digest password_reset alice.id refl
      (next here (on_accounts (revokes 7 next_id refl))) (omega arith)

abbrev resent : World
resent =
    (resend_verification service (second 5 first_id) start (record { email = "alice@example.com" })
      home).0

abbrev verified : World × Result UserProfile
verified = verify_email service (second 6 next_id) resent first_id

verify_email-once_example :
    (verify_email service
      (second 8 next_id)
      (run service verified.0 (forgets (second 7 next_id) asks home ∷ []))
      first_id).1
    ≢ ok (profile_from alice)
unfolding program
verify_email-once_example =
    verify_email-once service (second 6 next_id) (second 8 next_id) resent first_id
      (forgets (second 7 next_id) asks home ∷ [])
      (profile_from (record alice { email_verified_at = some 6_000_000 })) refl (omega arith)
      (profile_from alice)

abbrev nobody : World
nobody = record start { db = record start.db { users = [] } }

forgot_password-oblivious_example :
    ((forgot_password service (second 5 first_id) start asks home).1
      ≡ (forgot_password service (second 5 first_id) nobody asks home).1)
    × ((forgot_password service (second 5 first_id) start asks home).0.email_attempts
        ≡ (forgot_password service (second 5 first_id) nobody asks home).0.email_attempts)
forgot_password-oblivious_example =
    forgot_password-oblivious service (second 5 first_id) start nobody asks home refl

abbrev choice : ResetPasswordRequest
choice = record { token = first_id; password = "battery 5taple" }

abbrev known : LoginRequest
known = record { email = "alice@example.com"; password = "correct horse" }

abbrev access : String
access = plain.sign (record { sub = alice.id; sid = next_id; iat = 6; exp = 26 })

abbrev row : SessionRow
row = record { id = next_id; user_id = alice.id; username = "alice" }

abbrev signed_in : World
signed_in = (login (λ db. db) service (second 6 next_id) asked known home).0

signed_in_well : authenticate service (second 7 next_id) signed_in.db access ≡ ok row
unfolding program
signed_in_well = refl

abbrev reset : World
reset = (reset_password service (second 8 next_id) signed_in choice home).0

reset_password-Resets_example :
    (authenticate service (second 9 next_id) reset.db access ≢ ok row)
    × (account : UserRow) × (find_user_by_id reset.db alice.id ≡ some account)
    × (check_password bare "throwaway" (some account) "battery 5taple" ≡ ok (some account))
unfolding program
reset_password-Resets_example =
    reset_password-Resets service (second 8 next_id) (second 9 next_id) signed_in choice home
      alice.id access row refl refl refl

-- A reset that commits between the check of the password and the new session leaves that session.
survives :
    authenticate service
      (second 9 next_id)
      (login
        (λ db.
          (reset_password service (second 6 next_id) (record asked { db = db }) choice home).0.db)
        service
        (second 6 next_id)
        asked
        known
        home).0.db
      access
    ≡ ok row
unfolding program
survives = refl

a_day : human_ttl 86_400_000_000_000 ≡ "24 小时"
unfolding human_ttl decimal
a_day = refl
