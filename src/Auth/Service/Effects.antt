-- ===== src/Auth/Service/Effects.antt =====
-- What a sign-in gives, and what a new password takes.
use jiuyue.Base.{
  text_key, nat_key, Option-cases, is_some, same, find_first, any, String, ◌≡◌, refl, sym, ap,
  subst, ◌∙◌, ◌≢◌, inl, inr, Bool, true, false, not, ◌&&◌, some, arith,
}
use jiuyue.Base.Rows.{
  find_first-some, find_first-any, any-update_where-false, find_first-update_where,
}
use jiuyue.Contract.{ResetPasswordRequest}
use jiuyue.Auth.Errors.{ok, Result-cases, >>=-eq-ok}
use jiuyue.Auth.Tokens.{verify_access}
use jiuyue.Auth.Store.{Db, UserRow, SessionRow, StoredSession, find_user_by_id, password_reset}
use jiuyue.Auth.Store.Accounts.{
  is_active, revoked, revoke_all_sessions, update_password, find_active_session_by_id,
}
use jiuyue.Auth.Store.Links.{consume}
use jiuyue.Auth.Service.{AuthService, World, Supply, SessionContext, refuse_while_limited, source}
use jiuyue.Auth.Service.SignIn.{authenticate, check_password, system_secs}
use jiuyue.Auth.Service.Recovery.{reset_password, redeem_reset}

live_of : String → StoredSession → Bool
live_of user x = same x.user_id user && not (is_some x.revoked_at)

-- The tables after a reset: the User's password is the new one, and no session of theirs is live.
record IsReset (s : AuthService) (given : Supply) (user password : String) (db : Db) : Type 0 where
  phc : String
  hashed : s.hasher.hash given.salt password ≡ ok phc
  account : UserRow
  known : find_user_by_id db user ≡ some account
  stored : account.password_hash ≡ some phc
  signed_out : any (live_of user) db.sessions ≡ false

redeem_reset-IsReset :
    (s : AuthService) (given : Supply) (digest password : String) (spent : Db) (user : String)
    → (redeem_reset s given digest password (spent, some user)).1 ≡ ok tt
    → IsReset s given user password (redeem_reset s given digest password (spent, some user)).0
unfolding redeem_reset update_password revoke_all_sessions live_of
redeem_reset-IsReset s given digest password spent user h =
    elim (Result-cases (s.hasher.hash given.salt password)) [
      | inl (e, k) ↦ absurd (ground (arith, k, h))
      | inr (phc, k) ↦ elim (Option-cases (find_user_by_id spent user)) [
        | inl e ↦ absurd (ground (arith, k, e, h))
        | inr (u, e) ↦
            let changed = λ (x : UserRow). record x { password_hash = some phc } in
            let found =
              find_first-update_where (λ x. same x.id user) changed spent.users u (λ y. refl) e in
            let out =
              any-update_where-false (live_of user) (live_of user) (revoked given.now)
                spent.sessions (λ x a. a) (λ x a. ground arith) in
            let db' : (redeem_reset s given digest password (spent, some user)).0
                ≡ revoke_all_sessions (update_password spent user phc).0 given.now user =
              ground (arith, k, e) in
            subst (IsReset s given user password) (sym db') (record {
              phc = phc;
              hashed = k;
              account = changed u;
              known = found;
              stored = refl;
              signed_out = out;
            })
      ]
    ]

-- No access token of a User without a live session is accepted.
authenticate-signed_out :
    (s : AuthService) (given : Supply) (db : Db) (token : String) (row : SessionRow)
    → any (live_of row.user_id) db.sessions ≡ false
    → authenticate s given db token ≢ ok row
unfolding authenticate find_active_session_by_id live_of
authenticate-signed_out s given db token row none_live e =
    let (claims, verified, rest) =
      >>=-eq-ok (verify_access s.crypto token (system_secs given.system)) _ e in
    let q = λ (x : StoredSession). is_active given.now x && same x.id claims.sid in
    elim (Option-cases (find_first q db.sessions)) [
      | inl missing ↦ ground (arith, rest, missing)
      | inr (x, there) ↦ elim (Option-cases (find_user_by_id db x.user_id)) [
        | inl gone ↦ ground (arith, rest, there, gone)
        | inr (u, known) ↦
            let passed = find_first-some q db.sessions x there in
            let owner : row.user_id ≡ x.user_id = ground (arith, rest, there, known) in
            let live : live_of row.user_id x ≡ true = ground (arith, passed, owner) in
            ground
              (arith, none_live, find_first-any q (live_of row.user_id) db.sessions x there live)
      ]
    ]

reset_password-redeems :
    (s : AuthService) (given : Supply) (w : World) (request : ResetPasswordRequest)
    (context : SessionContext)
    → (reset_password s given w request context).1 ≡ ok tt
    → (user : String) × ((consume w.db given.now
          (s.crypto.hash_token request.token)
          password_reset).1
        ≡ some user)
      × (account : UserRow) × (find_user_by_id (reset_password s given w request context).0.db user
          ≡ some account)
      × (check_password s.hasher s.dummy_hash (some account) request.password ≡ ok (some account))
      × ((later : Supply) (token : String) (row : SessionRow)
          → row.user_id ≡ user
          → authenticate s later (reset_password s given w request context).0.db token ≢ ok row)
unfolding reset_password check_password
reset_password-redeems s given w request context h =
    let (attempts, gate) = refuse_while_limited w.email_attempts (source context) given.instant in
    let digest = s.crypto.hash_token request.token in
    let spent = (consume w.db given.now digest password_reset).0 in
    let owner = (consume w.db given.now digest password_reset).1 in
    let redeemed = redeem_reset s given digest request.password (spent, owner) in
    elim (Result-cases gate) [
      | inl (e, k) ↦ absurd (ground (arith, k, h))
      | inr (_, k) ↦ elim (Option-cases owner) [
        | inl none_left ↦ absurd (unfold redeem_reset in ground (arith, k, none_left, h))
        | inr (user, e) ↦
            let answer : (redeem_reset s given digest request.password (spent, some user)).1
                ≡ ok tt =
              ground (arith, k, e, h) in
            let done = redeem_reset-IsReset s given digest request.password spent user answer in
            let db' : (reset_password s given w request context).0.db
                ≡ (redeem_reset s given digest request.password (spent, some user)).0 =
              ground (arith, k, e, h) in
            let matches = s.hasher.verify-hash given.salt request.password done.phc done.hashed in
            (
              user,
              e,
              done.account,
              ap (λ db. find_user_by_id db user) db' ∙ done.known,
              ground (arith, matches, done.stored),
              λ later token row owned.
                  authenticate-signed_out s later (reset_password s given w request context).0.db
                    token row (rw (db', owned) done.signed_out),
            )
      ]
    ]

-- A reset that is accepted, and whose token stood for a link of `user`, gives them the new password:
-- the check of a sign-in accepts it. And they are signed out: no access token of theirs, of any
-- session and at any time, is accepted by the tables that it leaves.
pub reset_password-Resets :
    (s : AuthService) (given later : Supply) (w : World) (request : ResetPasswordRequest)
    (context : SessionContext) (user token : String) (row : SessionRow)
    → (reset_password s given w request context).1 ≡ ok tt
    → (consume w.db given.now (s.crypto.hash_token request.token) password_reset).1 ≡ some user
    → row.user_id ≡ user
    → (authenticate s later (reset_password s given w request context).0.db token ≢ ok row)
      × (account : UserRow) × (find_user_by_id (reset_password s given w request context).0.db user
          ≡ some account)
      × (check_password s.hasher s.dummy_hash (some account) request.password ≡ ok (some account))
reset_password-Resets s given later w request context user token row h redeemed owned =
    let (owner, e, account, known, checked, out) =
      reset_password-redeems s given w request context h in
    let one : owner ≡ user = ground (arith, e, redeemed) in
    (
      out later token row (owned ∙ sym one),
      account,
      subst (λ u. find_user_by_id (reset_password s given w request context).0.db u ≡ some account)
          one known,
      checked,
    )
