-- ===== src/Auth/Service/Opened.antt =====
-- A session that is opened is proved by its own access token.
use jiuyue.Base.{
  text_key, nat_key, leb, Option-cases, same, find_first, any, last, ℕ, ◌+◌, ◌≤◌, ◌<◌, String, ◌≡◌,
  refl, sym, ap, subst, ◌∙◌, inl, inr, true, false, ◌&&◌, ◌||◌, some, List, [], ◌∷◌, ◌++◌, arith,
}
use jiuyue.Base.Word.{as_secs}
use jiuyue.Base.Rows.{find_first-append, any-find_first, any_weaken}
use jiuyue.Contract.{AuthSession}
use jiuyue.Auth.Errors.{ok, Result-cases, >>=-eq-ok}
use jiuyue.Auth.Tokens.{i64_max, AccessClaims, issue_access, verify_access, leeway}
use jiuyue.Auth.Tokens.Expiry.{verify_access-issue_access}
use jiuyue.Auth.Store.{Db, UserRow, SessionRow, StoredSession, find_user_by_id}
use jiuyue.Auth.Store.Accounts.{
  NewSession, create_session, session_of, is_active, find_active_session_by_id, session_row,
}
use jiuyue.Auth.Service.{
  AuthService, World, Supply, SessionContext, finish_sign_in, profile_from, refresh_ttl, token_pair,
}
use jiuyue.Auth.Service.SignIn.{
  authenticate, insert_session, open_session, session_for, system_secs, owned_by,
}

-- The new row is the active one under its id, and belongs to an account.
create_session-found :
    (db db' : Db) (n : NewSession) (now later : ℕ)
    → create_session db n now ≡ ok db'
    → later < now + n.refresh_ttl
    → (row : SessionRow) × (find_active_session_by_id db' later n.id ≡ some row)
      × (row.id ≡ n.id)
      × (row.user_id ≡ n.user_id)
unfolding create_session find_active_session_by_id
create_session-found db db' n now later e h =
    let taken =
      λ (x : StoredSession). same x.id n.id || same x.refresh_token_hash n.refresh_token_hash in
    let q = λ (x : StoredSession). is_active later x && same x.id n.id in
    let sessions' : db'.sessions ≡ db.sessions ++ session_of n now ∷ [] = ground (arith, e) in
    let users' : db'.users ≡ db.users = ground (arith, e) in
    let free : any taken db.sessions ≡ false =
      ground (arith, e, any-find_first taken db.sessions) in
    let unmatched = any_weaken q taken db.sessions (λ x a. ground arith) free in
    let found = find_first-append q db.sessions (session_of n now) unmatched (ground arith) in
    elim (Option-cases (find_user_by_id db n.user_id)) [
      | inl gone ↦ absurd (ground (arith, e, gone))
      | inr (u, known) ↦ (
        record { id = n.id; user_id = n.user_id; username = u.username },
        subst
            (λ (sn : List StoredSession).
              session_row db' (find_first q sn)
              ≡ some (record { id = n.id; user_id = n.user_id; username = u.username }))
            (sym sessions') (ground (arith, users', found, known)),
        refl,
        refl,
      )
    ]

-- What a sign-in holds at a later time: the session's lifetime by the database's clock, the token's
-- by the system's.
pub record InTime (s : AuthService) (given later : Supply) (issued : ℕ) : Type 0 where
  pub clock : given.system ≡ some issued
  pub in_range : as_secs issued + as_secs s.tokens.access_ttl ≤ i64_max
  pub token : system_secs later.system ≤ as_secs issued + as_secs s.tokens.access_ttl + leeway
  pub session : later.now < given.now + refresh_ttl s.tokens

authenticate-eq-ok :
    (s : AuthService) (later : Supply) (db : Db) (access_token : String) (claims : AccessClaims)
    (row : SessionRow)
    → verify_access s.crypto access_token (system_secs later.system) ≡ ok claims
    → find_active_session_by_id db later.now claims.sid ≡ some row
    → row.user_id ≡ claims.sub
    → authenticate s later db access_token ≡ ok row
unfolding authenticate
authenticate-eq-ok s later db access_token claims row proved found owner =
    let own : owned_by claims.sub (some row) ≡ some row = ground (arith, owner) in
    rw (proved, found, own) refl

-- The token of a sign-in proves the account and the session.
finish_sign_in-proves :
    (s : AuthService) (given later : Supply) (user : UserRow) (issued : ℕ) (refresh_token : String)
    (answer : AuthSession)
    → InTime s given later issued
    → finish_sign_in s given.system user given.session_id refresh_token ≡ ok answer
    → (claims : AccessClaims) × (verify_access s.crypto answer.tokens.access_token
          (system_secs later.system)
        ≡ ok claims)
      × (claims.sid ≡ given.session_id)
      × (claims.sub ≡ user.id)
      × (answer.user.id ≡ user.id)
unfolding finish_sign_in profile_from
finish_sign_in-proves s given later user issued refresh_token answer t h =
    let (i, issue, lasts, proof) =
      verify_access-issue_access s.crypto s.tokens issued (system_secs later.system) user.id
        given.session_id t.in_range in
    let claims : AccessClaims = record {
      sub = user.id;
      sid = given.session_id;
      iat = as_secs issued;
      exp = as_secs issued + i.expires_in;
    } in
    let issue' =
      ap (λ c. issue_access s.crypto s.tokens c user.id given.session_id) t.clock ∙ issue in
    let told : record { user = profile_from user; tokens = token_pair i refresh_token } ≡ answer =
      ground (arith, issue', h) in
    let live : leb (system_secs later.system) (as_secs issued + i.expires_in + leeway) ≡ true =
      ground (arith, t.token, lasts) in
    (
      claims,
      subst
          (λ (a : AuthSession).
            verify_access s.crypto a.tokens.access_token (system_secs later.system) ≡ ok claims)
          told (proof ∙ ground (arith, live)),
      refl,
      refl,
      ap (λ (a : AuthSession). a.user.id) (sym told),
    )

pub open_session-authenticates :
    (s : AuthService) (given later : Supply) (w : World) (user : UserRow) (context : SessionContext)
    (issued : ℕ) (answer : AuthSession)
    → InTime s given later issued
    → (open_session s given w user context).1 ≡ ok answer
    → (row : SessionRow) × (authenticate s later
          (open_session s given w user context).0.db
          answer.tokens.access_token
        ≡ ok row)
      × (row.id ≡ given.session_id)
      × (row.user_id ≡ answer.user.id)
      × (answer.user.id ≡ user.id)
unfolding open_session insert_session
open_session-authenticates s given later w user context issued answer t h =
    elim (Result-cases (insert_session s given w.db user.id context)) [
      | inl (e, k) ↦ absurd (ground (arith, k, h))
      | inr ((db', secret), k) ↦
          let (drawn, random, rest) = >>=-eq-ok given.refresh_secret _ k in
          let (db1, created, last) =
            >>=-eq-ok (create_session w.db (session_for s given context user.id drawn) given.now) _
              rest in
          let same_db : db1 ≡ db' = ground (arith, last) in
          let after : db1 ≡ (open_session s given w user context).0.db =
            ground (arith, k, same_db) in
          let finished : finish_sign_in s given.system user given.session_id secret ≡ ok answer =
            ground (arith, k, h) in
          let (claims, proved, sid, sub, own) =
            finish_sign_in-proves s given later user issued secret answer t finished in
          let (row, found, id, owner) =
            create_session-found w.db db1 (session_for s given context user.id drawn) given.now
              later.now created t.session in
          (
            row,
            subst (λ (db : Db). authenticate s later db answer.tokens.access_token ≡ ok row) after
                (authenticate-eq-ok s later db1 answer.tokens.access_token claims row proved
                  (subst (λ i. find_active_session_by_id db1 later.now i ≡ some row) (sym sid)
                    found)
                  (owner ∙ sym sub)),
            id,
            owner ∙ sym own,
            own,
          )
    ]
