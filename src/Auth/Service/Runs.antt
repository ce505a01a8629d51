-- ===== src/Auth/Service/Runs.antt =====
-- What a use case does to the tables, as a run of statements.
pub mod SignIn
pub mod Recovery
use jiuyue.Base.{
  text_key, nat_key, Bool-cases, is_some, is_empty, last, ℕ, ◌/◌, String, ◌≡◌, refl, sym, ap, subst,
  ◌∙◌, inl, inr, Option, none, some, List, [], ◌∷◌, arith,
}
use jiuyue.Contract.{
  RegisterRequest, LoginRequest, ForgotPasswordRequest, ResendVerificationRequest,
  ResetPasswordRequest,
}
use jiuyue.Auth.Errors.{ok, Result-cases, >>=-eq-ok}
use jiuyue.Auth.Store.Links.{NewToken, issue, consume}
use jiuyue.Auth.Validation.{
  validate_registration, validate_login, normalize_email, trim, validate_resend_verification,
  validate_forgot_password, validate_password_reset,
}
use jiuyue.Chat.Text.{is_empty_text}
use jiuyue.Auth.Tokens.{verify_access}
use jiuyue.Auth.Store.{
  Db, UserRow, TokenPurpose, email_verification, password_reset, find_user_by_email,
}
use jiuyue.Auth.Store.Accounts.{
  NewAccount, NewSession, create_account, create_session, insert_user, user_of, update_password,
}
use jiuyue.Auth.Store.Statements.{
  Statement, Runs, here, next, Runs-trans, on_accounts, on_links, inserts_user, creates_session,
  issues, verifies, changes_password, revokes, revokes_all, touches, consumes,
}
use jiuyue.Auth.Service.{
  AuthService, World, Supply, SessionContext, create_link, ttl_of, source, refuse_while_limited,
  reject,
}
use jiuyue.Auth.Service.SignIn.{
  issue_verification_link, open_account, register, insert_session, open_session, login, refresh,
  logout, check_password, refreshed, system_secs,
}
use jiuyue.Auth.Service.Recovery.{
  target, redeem_verification, redeem_reset, verify_email, resend_verification, issue_reset_link,
  forgot_password, reset_password, resend_to,
}

pub one : {x y : Db} → Statement x y → Runs x y
one s = next here s

-- A run that ends in the tables that a use case leaves.
pub ending : {x y z : Db} → z ≡ y → Runs x y → Runs x z
ending {x} e r = subst (Runs x) (sym e) r

abbrev pub link_token : AuthService → Supply → String → TokenPurpose → String → NewToken
link_token s given user purpose token = record {
  id = given.link_id;
  user_id = user;
  purpose = purpose;
  token_hash = s.crypto.hash_token token;
  ttl = ttl_of s purpose / 1000;
}

pub create_link-Runs :
    (s : AuthService) (given : Supply) (db : Db) (user : String) (purpose : TokenPurpose) (db' : Db)
    (secret : Option String)
    → create_link s given db user purpose ≡ ok (db', secret)
    → Runs db db'
unfolding create_link
create_link-Runs s given db user purpose db' secret e =
    let (token, drawn, rest) = >>=-eq-ok given.link_secret _ e in
    let ((db1, written), issued, last) =
      >>=-eq-ok (issue db given.now (link_token s given user purpose token)) _ rest in
    let same_db : db1 ≡ db' = ground (arith, last) in
    one (on_links (issues given.now _ written (issued ∙ ap (λ d. ok (d, written)) same_db)))
