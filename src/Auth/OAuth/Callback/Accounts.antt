-- ===== src/Auth/OAuth/Callback/Accounts.antt =====
-- What a callback does to the accounts that there are.
use jiuyue.Base.{
  text_key, nat_key, Option-cases, Bool-cases, ℕ, zero, suc, String, ◌≡◌, refl, sym, ap, subst, ◌∙◌,
  ◌⊎◌, inl, inr, Option, none, [], ◌∷◌, ◌++◌, arith,
}
use jiuyue.Contract.{OAuthProvider, OAuthCallbackRequest}
use jiuyue.Auth.Errors.{ok, Result, Result-cases, >>=-eq-ok}
use jiuyue.Auth.Store.{Db, UserRow, find_user_by_email, find_user_by_username}
use jiuyue.Auth.Store.Accounts.{create_session, insert_user}
use jiuyue.Auth.Store.OAuth.{
  NewOAuthAccount, StoredOAuthState, consume_state, find_user_by_identity, same_provider,
  link_identity, insert_identity,
}
use jiuyue.Auth.Store.Pending.{
  create_oauth_account, active_pending_session, insert_pending, oauth_user, pending_of,
  consume_pending_session_by_id, mint_pending_session,
}
use jiuyue.Auth.Service.{SessionContext}
use jiuyue.Auth.OAuth.Client.{OAuthIdentity}
use jiuyue.Auth.OAuth.Handles.{suggested_username, max_username_attempts}
use jiuyue.Auth.OAuth.SignIn.{
  OAuthService, Draws, CallbackOutcome, sign_in, link, exchange_identity, open_session,
}
use jiuyue.Auth.OAuth.Opening.{create_account, create_attempts, prepare, email_guard, ends}
use jiuyue.Auth.OAuth.Callback.{callback, redeem, resolve, resume_onboarding, kept_or}

-- No account changes. One may be new, with an email and a username that nobody had, and no password.
abbrev pub Grown : Db → Db → Type 0
Grown db db' =
    (db'.users ≡ db.users)
    ⊎ ((new : UserRow) × (db'.users ≡ db.users ++ new ∷ [])
        × (find_user_by_email db new.email ≡ none)
        × (find_user_by_username db new.username ≡ none)
        × (new.password_hash ≡ none))

create_oauth_account-Grown :
    (db db' : Db) (now : ℕ) (a : NewOAuthAccount) (user : UserRow)
    → create_oauth_account db now a ≡ ok (db', user)
    → Grown db db'
unfolding create_oauth_account insert_user insert_identity insert_pending
create_oauth_account-Grown db db' now a user e =
    let (db1, inserted, rest) = >>=-eq-ok (insert_user db (oauth_user a now)) _ e in
    let (db2, bound, more) =
      >>=-eq-ok (insert_identity db1 (record a.identity { user_id = a.user_id })) _ rest in
    let (db3, waits, last) = >>=-eq-ok (insert_pending db2 (pending_of a now)) _ more in
    let here : db1.users ≡ db.users ++ oauth_user a now ∷ [] = ground (arith, inserted) in
    let there : db2.users ≡ db1.users = ground (arith, bound) in
    let end : db3.users ≡ db2.users = ground (arith, waits) in
    let same_db : db3 ≡ db' = ground (arith, last) in
    inr (
      oauth_user a now,
      ap (λ (d : Db). d.users) (sym same_db) ∙ (end ∙ (there ∙ here)),
      elim (Option-cases (find_user_by_email db a.email)) [
        | inl none_has ↦ none_has
        | inr (u, has) ↦ absurd (ground (arith, has, inserted))
      ],
      elim (Option-cases (find_user_by_username db a.username)) [
        | inl none_has ↦ none_has
        | inr (u, has) ↦ absurd (ground (arith, has, inserted))
      ],
      refl,
    )

create_attempts-Grown :
    (s : OAuthService) (given : Draws) (db db' : Db) (provider : OAuthProvider)
    (identity : OAuthIdentity) (base : String) (path : Option String) (left attempt : ℕ)
    (outcome : CallbackOutcome)
    → create_attempts s given db provider identity base path left attempt ≡ ok (db', outcome)
    → Grown db db'
unfolding create_attempts
create_attempts-Grown s given db db' provider identity base path zero attempt outcome e =
    absurd (ground (arith, e))
create_attempts-Grown s given db db' provider identity base path (suc left) attempt outcome e =
    let (drawn, prepared, rest) =
      >>=-eq-ok (prepare s (given.attempts attempt) provider identity base attempt) _ e in
    elim (Result-cases (create_oauth_account db given.now drawn.0)) [
      | inr ((db1, u), made) ↦
          let same_db : db1 ≡ db' = ground (arith, made, rest) in
          create_oauth_account-Grown db db' given.now drawn.0 u
            (made ∙ ap (λ (d : Db). ok (d, u)) same_db)
      | inl (f, refused) ↦ elim (Option-cases (ends f)) [
        | inl next_turn ↦
            create_attempts-Grown s given db db' provider identity base path left (suc attempt)
              outcome (ground (arith, refused, next_turn, rest))
        | inr (g, fatal) ↦ absurd (ground (arith, refused, fatal, rest))
      ]
    ]

create_account-Grown :
    (s : OAuthService) (given : Draws) (db : Db) (provider : OAuthProvider)
    (identity : OAuthIdentity) (path : Option String)
    → Grown db (kept_or db (create_account s given db provider identity path)).0
unfolding create_account
create_account-Grown s given db provider identity path =
    elim (Result-cases (create_account s given db provider identity path)) [
      | inl (f, refused) ↦ inl (ground (arith, refused))
      | inr ((db', outcome), made) ↦
          let (_, free, rest) = >>=-eq-ok (email_guard db identity.email) _ made in
          subst (Grown db) (sym (ap (λ (r : Result (Db × CallbackOutcome)). (kept_or db r).0) made))
            (create_attempts-Grown s given db db' provider identity
              (suggested_username identity provider) path max_username_attempts 0 outcome rest)
    ]

sign_in-users :
    (s : OAuthService) (given : Draws) (db : Db) (id : String) (path : Option String)
    (context : SessionContext)
    → (kept_or db (sign_in s given db id path context)).0.users ≡ db.users
unfolding sign_in open_session create_session
sign_in-users s given db id path context = ground arith

resume_onboarding-users :
    (s : OAuthService) (given : Draws) (db : Db) (provider : OAuthProvider)
    (identity : OAuthIdentity) (bound : UserRow) (path : Option String) (previous : String)
    → (resume_onboarding s given db provider identity bound path previous).0.users ≡ db.users
unfolding resume_onboarding consume_pending_session_by_id mint_pending_session
resume_onboarding-users s given db provider identity bound path previous = ground arith

link-users :
    (given : Draws) (db linked : Db) (provider : OAuthProvider) (identity : OAuthIdentity)
    (id : String)
    → link given db provider identity id ≡ ok linked
    → linked.users ≡ db.users
unfolding link link_identity
link-users given db linked provider identity id e = ground arith

resolve-Grown :
    (s : OAuthService) (given : Draws) (db : Db) (provider : OAuthProvider)
    (identity : OAuthIdentity) (state : StoredOAuthState) (context : SessionContext)
    → Grown db (resolve s given db provider identity state context).0
unfolding resolve
resolve-Grown s given db provider identity state context = elim (Option-cases state.user_id) [
  | inr (id, linking) ↦ elim (Result-cases (link given db provider identity id)) [
    | inl (f, refused) ↦ inl (ground (arith, linking, refused))
    | inr (linked, done) ↦
        let kept = sign_in-users s given linked id state.redirect_path context in
        let before = link-users given db linked provider identity id done in
        inl (ground (arith, linking, done, kept, before))
  ]
  | inl free ↦ elim (Option-cases (find_user_by_identity db provider identity.subject)) [
    | inl unbound ↦
        let ended : (kept_or db (create_account s given db provider identity state.redirect_path)).0
            ≡ (resolve s given db provider identity state context).0 =
          ground (arith, free, unbound) in
        subst (Grown db) ended
          (create_account-Grown s given db provider identity state.redirect_path)
    | inr (bound, found) ↦
        elim (Option-cases (active_pending_session db given.now provider identity.subject)) [
          | inr (pending, waits) ↦
              let kept =
                resume_onboarding-users s given db provider identity bound state.redirect_path
                  pending in
              inl (ground (arith, free, found, waits, kept))
          | inl done ↦
              let kept = sign_in-users s given db bound.id state.redirect_path context in
              inl (ground (arith, free, found, done, kept))
        ]
  ]
]

-- However a callback ends, it changes no account that there was. It adds one at most, whose email
-- and username nobody had and which has no password.
pub callback-Grown :
    (s : OAuthService) (given : Draws) (db : Db) (request : OAuthCallbackRequest)
    (context : SessionContext)
    → Grown db (callback s given db request context).0
unfolding callback redeem consume_state
callback-Grown s given db request context =
    let spent = (consume_state db given.now (s.crypto.hash_token request.state)).0 in
    elim (Option-cases (consume_state db given.now (s.crypto.hash_token request.state)).1) [
      | inl missing ↦ inl (ground (arith, missing))
      | inr (state, redeemed) ↦ elim (Bool-cases (same_provider state.provider request.provider)) [
        | inr other ↦ inl (ground (arith, redeemed, other))
        | inl agrees ↦
            elim (Result-cases
              (exchange_identity s request.provider state.code_verifier_hash request.code)) [
                | inl (f, refused) ↦ inl (ground (arith, redeemed, agrees, refused))
                | inr (identity, told) ↦
                    let ended : (resolve s given spent request.provider identity state context).0
                        ≡ (callback s given db request context).0 =
                      ground (arith, redeemed, agrees, told) in
                    subst (Grown db) ended
                      (resolve-Grown s given spent request.provider identity state context)
              ]
      ]
    ]
