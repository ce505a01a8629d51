-- ===== src/Auth/Service/Login.antt =====
-- What a sign-in that succeeds has checked, and what its access token proves.
use jiuyue.Base.{
  text_key, nat_key, Option-cases, ℕ, String, ◌≡◌, refl, sym, ap, subst, ◌∙◌, ◌⊎◌, inl, inr, true,
  false, Option, none, some, List, [], ◌∷◌, arith,
}
use jiuyue.Contract.{AuthSession}
use jiuyue.Auth.Errors.{◌>>=◌, ok, Result-cases, >>=-eq-ok, Result}
use jiuyue.Auth.Validation.{validate_login, normalize_email}
use jiuyue.Auth.Store.{Db, UserRow, SessionRow, find_user_by_email}
use jiuyue.Auth.Service.{
  AuthService, World, Supply, SessionContext, PasswordHasher, refuse_while_limited, LoginRequest,
  source,
}
use jiuyue.Auth.Service.SignIn.{authenticate, open_session, check_password, login}
use jiuyue.Auth.Service.Opened.{InTime, open_session-authenticates}

check_password-eq-some :
    (h : PasswordHasher) (dummy : String) (user : Option UserRow) (password : String)
    (known : UserRow)
    → check_password h dummy user password ≡ ok (some known)
    → (phc : String) × (user ≡ some known)
      × (known.password_hash ≡ some phc)
      × (h.verify password phc ≡ ok true)
unfolding check_password
check_password-eq-some h dummy none password known e =
    let (b, seen, rest) = >>=-eq-ok (h.verify password dummy) _ e in absurd (ground (arith, rest))
check_password-eq-some h dummy (some user) password known e =
    elim (Option-cases user.password_hash) [
      | inl unset ↦
          let refused : (h.verify password dummy >>= λ _. ok none) ≡ ok (some known) =
            ground (arith, unset, e) in
          let (b, seen, rest) = >>=-eq-ok (h.verify password dummy) _ refused in
          absurd (ground (arith, rest))
      | inr (phc, set) ↦ elim (Result-cases (h.verify password phc)) [
        | inl (f, k) ↦ absurd (ground (arith, set, k, e))
        | inr (false, k) ↦ absurd (ground (arith, set, k, e))
        | inr (true, k) ↦
            let one : user ≡ known = ground (arith, set, k, e) in
            (phc, ap some one, ap (λ (u : UserRow). u.password_hash) (sym one) ∙ set, k)
      ]
    ]

List-cases : {A : Type 0} (xs : List A) → (xs ≡ []) ⊎ ((x : A) × (rest : List A) × (xs ≡ x ∷ rest))
List-cases [] = inl refl
List-cases (x ∷ rest) = inr (x, rest, refl)

-- What a sign-in that succeeds went through.
login-opens :
    (others : Db → Db) (s : AuthService) (given : Supply) (w : World) (request : LoginRequest)
    (context : SessionContext) (answer : AuthSession)
    → (login others s given w request context).1 ≡ ok answer
    → (known : UserRow) × (forgiving : World) × (check_password s.hasher s.dummy_hash
          (find_user_by_email w.db (normalize_email s.to_lowercase request.email))
          request.password
        ≡ ok (some known))
      × (login others s given w request context ≡ open_session s given forgiving known context)
      × (forgiving.db ≡ others w.db)
unfolding login refuse_while_limited
login-opens others s given w request context answer h =
    let attempts = (refuse_while_limited w.login_attempts (source context) given.instant).0 in
    let forgiving : World = record w { login_attempts = attempts; db = others w.db } in
    let user = find_user_by_email w.db (normalize_email s.to_lowercase request.email) in
    elim (Result-cases (refuse_while_limited w.login_attempts (source context) given.instant).1) [
      | inl (e, k) ↦ absurd (ground (arith, k, h))
      | inr (_, k) ↦ elim (List-cases (validate_login s.to_lowercase request)) [
        | inr (p, ps, bad) ↦ absurd (ground (arith, k, bad, h))
        | inl fine ↦
            elim (Result-cases (check_password s.hasher s.dummy_hash user request.password)) [
              | inl (e, c) ↦ absurd (ground (arith, k, fine, c, h))
              | inr (none, c) ↦ absurd (ground (arith, k, fine, c, h))
              | inr (some known, c) ↦ (known, forgiving, c, ground (arith, k, fine, c), refl)
            ]
      ]
    ]

-- A sign-in that succeeds, whatever other requests commit while it runs, is for the account of the
-- email as it was when the request came, whose hash accepts the password: the answer is about that account. From the tables that it
-- leaves, its access token proves the new session and that account at every later time of the
-- service's clocks before the refresh lifetime and the token's own lifetime, with its leeway, have
-- passed.
pub login-authenticates :
    (others : Db → Db) (s : AuthService) (given later : Supply) (w : World) (request : LoginRequest)
    (context : SessionContext) (issued : ℕ) (answer : AuthSession)
    → InTime s given later issued
    → (login others s given w request context).1 ≡ ok answer
    → ((known : UserRow) × (phc : String) × (find_user_by_email w.db
            (normalize_email s.to_lowercase request.email)
          ≡ some known)
        × (known.password_hash ≡ some phc)
        × (s.hasher.verify request.password phc ≡ ok true)
        × (answer.user.id ≡ known.id))
      × ((row : SessionRow) × (authenticate s later
              (login others s given w request context).0.db
              answer.tokens.access_token
            ≡ ok row)
          × (row.id ≡ given.session_id)
          × (row.user_id ≡ answer.user.id))
login-authenticates others s given later w request context issued answer t h =
    let (known, forgiving, checked, through, tables) =
      login-opens others s given w request context answer h in
    let (phc, account, set, matches) =
      check_password-eq-some s.hasher s.dummy_hash
        (find_user_by_email w.db (normalize_email s.to_lowercase request.email)) request.password
        known checked in
    let (row, proved, id, owner, own) =
      open_session-authenticates s given later forgiving known context issued answer t
        (ap (λ (r : World × Result AuthSession). r.1) (sym through) ∙ h) in
    (
      (known, phc, account, set, matches, own),
      (
        row,
        subst
            (λ (r : World × Result AuthSession).
              authenticate s later r.0.db answer.tokens.access_token ≡ ok row)
            (sym through) proved,
        id,
        owner,
      ),
    )
