-- ===== src/Auth/OAuth/Callback/Owner.antt =====
-- Whose account a callback signs in to.
use jiuyue.Base.{
  text_key, nat_key, Option-cases, Bool-cases, ℕ, zero, suc, String, ◌≡◌, ◌≢◌, same, sym, ap, ◌∙◌,
  ◌⊎◌, inl, inr, true, Option, none, some, arith,
}
use jiuyue.Base.Rows.{find_first-some}
use jiuyue.Contract.{OAuthProvider, OAuthCallbackRequest}
use jiuyue.Auth.Errors.{Result, err, ◌>>=◌, ok, Result-cases, >>=-eq-ok, ok_or, account_missing}
use jiuyue.Auth.Store.{Db, UserRow, find_user_by_id}
use jiuyue.Auth.Store.OAuth.{StoredOAuthState, consume_state, find_user_by_identity, same_provider}
use jiuyue.Auth.Store.Pending.{
  create_oauth_account, active_pending_session, consume_pending_session_by_id, mint_pending_session,
}
use jiuyue.Auth.Store.Accounts.{create_session}
use jiuyue.Auth.Service.{SessionContext}
use jiuyue.Auth.OAuth.Client.{OAuthIdentity}
use jiuyue.Auth.OAuth.Handles.{suggested_username, max_username_attempts}
use jiuyue.Auth.OAuth.SignIn.{
  OAuthService, Draws, signed_in, sign_in, link, exchange_identity, open_session, oauth_session,
}
use jiuyue.Auth.OAuth.Opening.{create_account, create_attempts, prepare, email_guard, ends}
use jiuyue.Auth.OAuth.Callback.{callback, redeem, resolve, resume_onboarding, kept_or, pending_row}

find_user_by_id-id :
    (db : Db) (id : String) (user : UserRow) → find_user_by_id db id ≡ some user → user.id ≡ id
find_user_by_id-id db id user e =
    ground (arith, find_first-some (λ u. same u.id id) db.users user e)

sign_in-user :
    (s : OAuthService) (given : Draws) (db db' : Db) (id : String) (path path' : Option String)
    (context : SessionContext) (user : UserRow) (session refresh : String)
    → sign_in s given db id path context ≡ ok (db', signed_in user session refresh path')
    → user.id ≡ id
unfolding sign_in open_session
sign_in-user s given db db' id path path' context user session refresh e =
    let (found, known, rest) = >>=-eq-ok (ok_or (find_user_by_id db id) account_missing) _ e in
    let (token, drawn, more) = >>=-eq-ok given.refresh_token _ rest in
    let (db1, created, last) =
      >>=-eq-ok (create_session db (oauth_session s given found context token) given.now) _ more in
    let one : found ≡ user = ground (arith, last) in
    ap (λ (u : UserRow). u.id) (sym one) ∙ find_user_by_id-id db id found (ground (arith, known))

-- A turn of the loop ends in an onboarding, in an error or in the next turn.
create_attempts-onboards :
    (s : OAuthService) (given : Draws) (db db' : Db) (provider : OAuthProvider)
    (identity : OAuthIdentity) (base : String) (path path' : Option String) (left attempt : ℕ)
    (user : UserRow) (session refresh : String)
    → create_attempts s given db provider identity base path left attempt
      ≢ ok (db', signed_in user session refresh path')
unfolding create_attempts
create_attempts-onboards s given db db' provider identity base path path' zero attempt user session
      refresh e =
    ground (arith, e)
create_attempts-onboards s given db db' provider identity base path path' (suc left) attempt user
      session refresh e =
    let again =
      create_attempts-onboards s given db db' provider identity base path path' left (suc attempt)
        user session refresh in
    let (drawn, prepared, rest) =
      >>=-eq-ok (prepare s (given.attempts attempt) provider identity base attempt) _ e in
    elim (Result-cases (create_oauth_account db given.now drawn.0)) [
      | inr ((db1, u), made) ↦ ground (arith, made, rest)
      | inl (f, refused) ↦ elim (Option-cases (ends f)) [
        | inl next_turn ↦ again (ground (arith, refused, next_turn, rest))
        | inr (g, fatal) ↦ ground (arith, refused, fatal, rest)
      ]
    ]

kept_or-eq-ok :
    {A : Type 0} (db : Db) (r : Result (Db × A)) (a : A)
    → (kept_or db r).1 ≡ ok a
    → (db' : Db) × (r ≡ ok (db', a))
kept_or-eq-ok db (err e) a h = absurd (ground (arith, h))
kept_or-eq-ok db (ok (db', b)) a h = (db', ap (λ r. r >>= (λ x. ok (db', x))) h)

create_account-onboards :
    (s : OAuthService) (given : Draws) (db db' : Db) (provider : OAuthProvider)
    (identity : OAuthIdentity) (path path' : Option String) (user : UserRow)
    (session refresh : String)
    → create_account s given db provider identity path
      ≢ ok (db', signed_in user session refresh path')
unfolding create_account
create_account-onboards s given db db' provider identity path path' user session refresh e =
    let (_, free, rest) = >>=-eq-ok (email_guard db identity.email) _ e in
    create_attempts-onboards s given db db' provider identity (suggested_username identity provider)
      path path' max_username_attempts 0 user session refresh rest

resume_onboarding-onboards :
    (s : OAuthService) (given : Draws) (db : Db) (provider : OAuthProvider)
    (identity : OAuthIdentity) (bound : UserRow) (path path' : Option String) (previous : String)
    (user : UserRow) (session refresh : String)
    → (resume_onboarding s given db provider identity bound path previous).1
      ≢ ok (signed_in user session refresh path')
unfolding resume_onboarding
resume_onboarding-onboards s given db provider identity bound path path' previous user session
      refresh e =
    elim (Result-cases given.limited_token) [
      | inl (f, none_drawn) ↦ ground (arith, none_drawn, e)
      | inr (token, drawn) ↦
          let retired = consume_pending_session_by_id db given.now previous in
          elim (Result-cases
            (mint_pending_session retired (pending_row s given provider identity bound token))) [
              | inl (f, refused) ↦ ground (arith, drawn, refused, e)
              | inr (db', minted) ↦ ground (arith, drawn, minted, e)
            ]
    ]

-- How a callback came to an account: by the account of the link's state, or by an identity that was
-- bound to it before.
abbrev pub Known : Db → OAuthProvider → OAuthIdentity → StoredOAuthState → String → Type 0
Known db provider identity state id =
    (state.user_id ≡ some id)
    ⊎ ((state.user_id ≡ none)
        × (bound : UserRow) × (find_user_by_identity db provider identity.subject ≡ some bound)
        × (bound.id ≡ id))

resolve-Known :
    (s : OAuthService) (given : Draws) (db : Db) (provider : OAuthProvider)
    (identity : OAuthIdentity) (state : StoredOAuthState) (context : SessionContext)
    (user : UserRow) (session refresh : String) (path : Option String)
    → (resolve s given db provider identity state context).1
      ≡ ok (signed_in user session refresh path)
    → Known db provider identity state user.id
unfolding resolve
resolve-Known s given db provider identity state context user session refresh path e =
    elim (Option-cases state.user_id) [
      | inr (id, linking) ↦ elim (Result-cases (link given db provider identity id)) [
        | inl (f, refused) ↦ absurd (ground (arith, linking, refused, e))
        | inr (linked, done) ↦
            let (db', opened) =
              kept_or-eq-ok linked (sign_in s given linked id state.redirect_path context)
                (signed_in user session refresh path) (ground (arith, linking, done, e)) in
            inl (
              linking
              ∙ ap some (
                  sym (
                    sign_in-user s given linked db' id state.redirect_path path context user session
                      refresh opened)))
      ]
      | inl free ↦ elim (Option-cases (find_user_by_identity db provider identity.subject)) [
        | inl unbound ↦
            let (db', made) =
              kept_or-eq-ok db (create_account s given db provider identity state.redirect_path)
                (signed_in user session refresh path) (ground (arith, free, unbound, e)) in
            absurd (
              create_account-onboards s given db db' provider identity state.redirect_path path user
                session refresh made)
        | inr (bound, found) ↦
            elim (Option-cases (active_pending_session db given.now provider identity.subject)) [
              | inr (pending, waits) ↦ absurd (
                  resume_onboarding-onboards s given db provider identity bound state.redirect_path
                    path pending user session refresh (ground (arith, free, found, waits, e)))
              | inl done ↦
                  let (db', opened) =
                    kept_or-eq-ok db (sign_in s given db bound.id state.redirect_path context)
                      (signed_in user session refresh path)
                      (ground (arith, free, found, done, e)) in
                  inr (
                    free,
                    bound,
                    found,
                    sym (
                        sign_in-user s given db db' bound.id state.redirect_path path context user
                          session refresh opened),
                  )
            ]
      ]
    ]

-- A callback signs in to no account but one that the identity of the provider was bound to before,
-- or the account that asked for the link. Its state was redeemable and is for the provider that the
-- request names. The email that the provider tells plays no part.
pub callback-Known :
    (s : OAuthService) (given : Draws) (db : Db) (request : OAuthCallbackRequest)
    (context : SessionContext) (user : UserRow) (session refresh : String) (path : Option String)
    → (callback s given db request context).1 ≡ ok (signed_in user session refresh path)
    → (state : StoredOAuthState) × (identity : OAuthIdentity) × ((consume_state db given.now
          (s.crypto.hash_token request.state)).1
        ≡ some state)
      × (same_provider state.provider request.provider ≡ true)
      × (exchange_identity s request.provider state.code_verifier_hash request.code ≡ ok identity)
      × Known db request.provider identity state user.id
unfolding callback redeem consume_state find_user_by_identity
callback-Known s given db request context user session refresh path e =
    let spent = (consume_state db given.now (s.crypto.hash_token request.state)).0 in
    elim (Option-cases (consume_state db given.now (s.crypto.hash_token request.state)).1) [
      | inl missing ↦ absurd (ground (arith, missing, e))
      | inr (state, redeemed) ↦ elim (Bool-cases (same_provider state.provider request.provider)) [
        | inr other ↦ absurd (ground (arith, redeemed, other, e))
        | inl agrees ↦
            elim (Result-cases
              (exchange_identity s request.provider state.code_verifier_hash request.code)) [
                | inl (f, refused) ↦ absurd (ground (arith, redeemed, agrees, refused, e))
                | inr (identity, told) ↦ (
                  state,
                  identity,
                  redeemed,
                  agrees,
                  told,
                  resolve-Known s given spent request.provider identity state context user session
                      refresh path (ground (arith, redeemed, agrees, told, e)),
                )
              ]
      ]
    ]
