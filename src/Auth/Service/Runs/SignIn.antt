-- ===== src/Auth/Service/Runs/SignIn.antt =====
-- The runs of the use cases that open and end sessions.
use jiuyue.Base.{
  text_key, nat_key, Bool-cases, is_empty, last, ℕ, String, ◌≡◌, refl, ap, ◌∙◌, inl, inr, none,
  some, arith,
}
use jiuyue.Contract.{RegisterRequest, LoginRequest}
use jiuyue.Auth.Errors.{ok, Result-cases, >>=-eq-ok}
use jiuyue.Auth.Validation.{validate_registration, validate_login, normalize_email}
use jiuyue.Auth.Tokens.{verify_access}
use jiuyue.Auth.Store.{Db, UserRow, email_verification, find_user_by_email}
use jiuyue.Auth.Store.Accounts.{
  NewAccount, NewSession, create_account, create_session, insert_user, user_of,
}
use jiuyue.Auth.Store.Statements.{
  Runs, here, next, Runs-trans, on_accounts, inserts_user, creates_session, revokes, touches,
}
use jiuyue.Auth.Service.{
  AuthService, World, Supply, SessionContext, create_link, source, refuse_while_limited, reject,
}
use jiuyue.Auth.Service.SignIn.{
  issue_verification_link, open_account, register, insert_session, open_session, login, refresh,
  logout, check_password, refreshed, system_secs,
}
use jiuyue.Auth.Service.Runs.{one, ending, create_link-Runs}

create_account-Runs :
    (db : Db) (a : NewAccount) (n : NewSession) (now : ℕ) (db' : Db) (u : UserRow)
    → create_account db a n now ≡ ok (db', u)
    → Runs db db'
unfolding create_account
create_account-Runs db a n now db' u e =
    let (db1, inserted, rest) = >>=-eq-ok (insert_user db (user_of a now)) _ e in
    let (db2, opened, last) = >>=-eq-ok (create_session db1 n now) _ rest in
    let same_db : db2 ≡ db' = cc last in
    next (one (on_accounts (inserts_user (user_of a now) inserted)))
      (on_accounts (creates_session n now (opened ∙ ap ok same_db)))

pub issue_verification_link-Runs :
    (s : AuthService) (given : Supply) (w : World) (user : UserRow)
    → Runs w.db (issue_verification_link s given w user).db
unfolding issue_verification_link
issue_verification_link-Runs s given w user =
    elim (Result-cases (create_link s given w.db user.id email_verification)) [
      | inl (e, h) ↦ ending (ground (arith, h)) here
      | inr ((db', secret), h) ↦
          ending {y = db'} (ground (arith, h))
            (create_link-Runs s given w.db user.id email_verification db' secret h)
    ]

open_account-Runs :
    (s : AuthService) (given : Supply) (db : Db) (request : RegisterRequest)
    (context : SessionContext) (db' : Db) (user : UserRow) (secret : String)
    → open_account s given db request context ≡ ok (db', user, secret)
    → Runs db db'
unfolding open_account
open_account-Runs s given db request context db' user secret e =
    let (phc, hashed, rest) = >>=-eq-ok (s.hasher.hash given.salt request.password) _ e in
    let (drawn, random, more) = >>=-eq-ok given.refresh_secret _ rest in
    let ((db1, u), created, last) = >>=-eq-ok _ _ more in
    ending (ground (arith, last)) (create_account-Runs db _ _ given.now db1 u created)

pub register-Runs :
    (s : AuthService) (given : Supply) (w : World) (request : RegisterRequest)
    (context : SessionContext)
    → Runs w.db (register s given w request context).0.db
unfolding register
register-Runs s given w request context =
    elim (Bool-cases (is_empty (validate_registration s.to_lowercase request))) [
      | inr refused ↦ ending (ground (arith, refused)) here
      | inl valid ↦ elim (Result-cases (open_account s given w.db request context)) [
        | inl (e, h) ↦ ending (ground (arith, valid, h)) here
        | inr ((db', user, secret), h) ↦ ending (ground (arith, valid, h)) (
            Runs-trans (open_account-Runs s given w.db request context db' user secret h)
              (issue_verification_link-Runs s given (record w { db = db' }) user))
      ]
    ]

open_session-Runs :
    (s : AuthService) (given : Supply) (w : World) (user : UserRow) (context : SessionContext)
    → Runs w.db (open_session s given w user context).0.db
unfolding open_session insert_session
open_session-Runs s given w user context =
    elim (Result-cases (insert_session s given w.db user.id context)) [
      | inl (e, h) ↦ ending (ground (arith, h)) here
      | inr ((db', secret), h) ↦
          let (drawn, random, rest) = >>=-eq-ok given.refresh_secret _ h in
          let (db1, created, last) = >>=-eq-ok _ _ rest in
          ending (ground (arith, h, last)) (one (on_accounts (creates_session _ given.now created)))
    ]

pub login-Runs :
    (s : AuthService) (given : Supply) (w : World) (request : LoginRequest)
    (context : SessionContext)
    → Runs w.db (login (λ db. db) s given w request context).0.db
unfolding login reject
login-Runs s given w request context =
    let (attempts, gate) = refuse_while_limited w.login_attempts (source context) given.instant in
    let seen : World = record w { login_attempts = attempts } in
    let email = normalize_email s.to_lowercase request.email in
    elim (Result-cases gate) [
      | inl (e, h) ↦ ending (ground (arith, h)) here
      | inr (_, passed) ↦ elim (Bool-cases (is_empty (validate_login s.to_lowercase request))) [
        | inr refused ↦ ending (ground (arith, passed, refused)) here
        | inl valid ↦
            elim (Result-cases (
              check_password s.hasher s.dummy_hash (find_user_by_email w.db email)
                request.password)) [
                  | inl (e, h) ↦ ending (ground (arith, passed, valid, h)) here
                  | inr (none, h) ↦ ending (ground (arith, passed, valid, h)) here
                  | inr (some user, h) ↦
                      ending (ground (arith, passed, valid, h))
                        (open_session-Runs s given seen user context)
                ]
      ]
    ]

pub refresh-Runs :
    (s : AuthService) (given : Supply) (w : World) (token : String)
    → Runs w.db (refresh s given w token).0.db
unfolding refresh
refresh-Runs s given w token = elim (Result-cases (refreshed s given w.db token)) [
  | inl (e, h) ↦ ending (ground (arith, h)) here
  | inr ((session, tokens), h) ↦
      ending (ground (arith, h)) (one (on_accounts (touches given.now session.id refl)))
]

pub logout-Runs :
    (s : AuthService) (given : Supply) (w : World) (token : String)
    → Runs w.db (logout s given w token).0.db
unfolding logout
logout-Runs s given w token =
    elim (Result-cases (verify_access s.crypto token (system_secs given.system))) [
      | inl (e, h) ↦ ending (ground (arith, h)) here
      | inr (claims, h) ↦
          ending (ground (arith, h)) (one (on_accounts (revokes given.now claims.sid refl)))
    ]
