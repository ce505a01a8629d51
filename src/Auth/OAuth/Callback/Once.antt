-- ===== src/Auth/OAuth/Callback/Once.antt =====
-- A callback as a run of statements, and the state that it spends.
use jiuyue.Base.{
  text_key, nat_key, Option-cases, Bool-cases, ℕ, zero, suc, ◌≤◌, String, ◌≡◌, refl, sym, subst,
  inl, inr, Option, none, some, arith,
}
use jiuyue.Contract.{OAuthProvider, OAuthCallbackRequest}
use jiuyue.Auth.Errors.{
  ok, err, oauth_state_invalid, ◌>>=◌, Result, Result-cases, >>=-eq-ok, ok_or, account_missing,
}
use jiuyue.Auth.Store.{Db, UserRow, find_user_by_id}
use jiuyue.Auth.Store.Accounts.{create_session, insert_user}
use jiuyue.Auth.Store.OAuth.{
  NewOAuthAccount, StoredOAuthState, consume_state, find_user_by_identity, same_provider,
  identity_owner, link_identity, insert_identity,
}
use jiuyue.Auth.Store.Pending.{
  create_oauth_account, active_pending_session, insert_pending, oauth_user, pending_of,
  consume_pending_session_by_id, mint_pending_session,
}
use jiuyue.Auth.Store.Statements.{
  Runs, here, next, Runs-trans, on_accounts, on_oauth, inserts_user, creates_session, links,
  inserts_identity, inserts_pending, consumes_pending, mints,
}
use jiuyue.Auth.Store.States.{consume_state-once}
use jiuyue.Auth.Service.{SessionContext}
use jiuyue.Auth.OAuth.Client.{OAuthIdentity}
use jiuyue.Auth.OAuth.Handles.{suggested_username, max_username_attempts}
use jiuyue.Auth.OAuth.SignIn.{
  OAuthService, Draws, CallbackOutcome, sign_in, link, exchange_identity, open_session,
  oauth_session, identity_row, unless_taken,
}
use jiuyue.Auth.OAuth.Opening.{create_account, create_attempts, prepare, email_guard, ends}
use jiuyue.Auth.OAuth.Callback.{callback, redeem, resolve, resume_onboarding, kept_or, pending_row}

-- A run that ends in the tables that are told another way.
ending : {x y z : Db} → y ≡ z → Runs x y → Runs x z
ending {x} e r = subst (Runs x) e r

create_oauth_account-Runs :
    (db db' : Db) (now : ℕ) (a : NewOAuthAccount) (user : UserRow)
    → create_oauth_account db now a ≡ ok (db', user)
    → Runs db db'
unfolding create_oauth_account
create_oauth_account-Runs db db' now a user e =
    let i = record a.identity { user_id = a.user_id } in
    let (db1, inserted, rest) = >>=-eq-ok (insert_user db (oauth_user a now)) _ e in
    let (db2, bound, more) = >>=-eq-ok (insert_identity db1 i) _ rest in
    let (db3, waits, last) = >>=-eq-ok (insert_pending db2 (pending_of a now)) _ more in
    ending (ground (arith, last)) (
      next
        (next (next here (on_accounts (inserts_user (oauth_user a now) inserted)))
          (on_oauth (inserts_identity i bound)))
        (on_oauth (inserts_pending (pending_of a now) waits)))

create_attempts-Runs :
    (s : OAuthService) (given : Draws) (db db' : Db) (provider : OAuthProvider)
    (identity : OAuthIdentity) (base : String) (path : Option String) (left attempt : ℕ)
    (outcome : CallbackOutcome)
    → create_attempts s given db provider identity base path left attempt ≡ ok (db', outcome)
    → Runs db db'
unfolding create_attempts
create_attempts-Runs s given db db' provider identity base path zero attempt outcome e =
    absurd (ground (arith, e))
create_attempts-Runs s given db db' provider identity base path (suc left) attempt outcome e =
    let (drawn, prepared, rest) =
      >>=-eq-ok (prepare s (given.attempts attempt) provider identity base attempt) _ e in
    elim (Result-cases (create_oauth_account db given.now drawn.0)) [
      | inr ((db1, u), made) ↦
          ending (ground (arith, made, rest))
            (create_oauth_account-Runs db db1 given.now drawn.0 u made)
      | inl (f, refused) ↦ elim (Option-cases (ends f)) [
        | inl next_turn ↦
            create_attempts-Runs s given db db' provider identity base path left (suc attempt)
              outcome (ground (arith, refused, next_turn, rest))
        | inr (g, fatal) ↦ absurd (ground (arith, refused, fatal, rest))
      ]
    ]

-- What may fail and then leaves the tables as they were.
kept_or-Runs :
    (db : Db) (r : Result (Db × CallbackOutcome))
    → ((db' : Db) (o : CallbackOutcome) → r ≡ ok (db', o) → Runs db db')
    → Runs db (kept_or db r).0
kept_or-Runs db (err e) h = here
kept_or-Runs db (ok (db', o)) h = h db' o refl

create_account-Runs :
    (s : OAuthService) (given : Draws) (db db' : Db) (provider : OAuthProvider)
    (identity : OAuthIdentity) (path : Option String) (outcome : CallbackOutcome)
    → create_account s given db provider identity path ≡ ok (db', outcome)
    → Runs db db'
unfolding create_account
create_account-Runs s given db db' provider identity path outcome e =
    let (_, free, rest) = >>=-eq-ok (email_guard db identity.email) _ e in
    create_attempts-Runs s given db db' provider identity (suggested_username identity provider)
      path max_username_attempts 0 outcome rest

sign_in-Runs :
    (s : OAuthService) (given : Draws) (db : Db) (id : String) (path : Option String)
    (context : SessionContext) (db' : Db) (outcome : CallbackOutcome)
    → sign_in s given db id path context ≡ ok (db', outcome)
    → Runs db db'
unfolding sign_in open_session
sign_in-Runs s given db id path context db' outcome e =
    let (user, known, rest) = >>=-eq-ok (ok_or (find_user_by_id db id) account_missing) _ e in
    let (token, drawn, more) = >>=-eq-ok given.refresh_token _ rest in
    let session = oauth_session s given user context token in
    let (db1, created, last) = >>=-eq-ok (create_session db session given.now) _ more in
    ending (ground (arith, last))
      (next here (on_accounts (creates_session session given.now created)))

resume_onboarding-Runs :
    (s : OAuthService) (given : Draws) (db : Db) (provider : OAuthProvider)
    (identity : OAuthIdentity) (bound : UserRow) (path : Option String) (previous : String)
    → Runs db (resume_onboarding s given db provider identity bound path previous).0
unfolding resume_onboarding
resume_onboarding-Runs s given db provider identity bound path previous =
    elim (Result-cases given.limited_token) [
      | inl (f, none_drawn) ↦ ending (ground (arith, none_drawn)) here
      | inr (token, drawn) ↦
          let retired = consume_pending_session_by_id db given.now previous in
          let row = pending_row s given provider identity bound token in
          let spent = next here (on_oauth (consumes_pending given.now previous refl)) in
          elim (Result-cases (mint_pending_session retired row)) [
            | inl (f, refused) ↦ ending (ground (arith, drawn, refused)) spent
            | inr (db', minted) ↦
                ending (ground (arith, drawn, minted)) (next spent (on_oauth (mints row minted)))
          ]
    ]

link-Runs :
    (given : Draws) (db linked : Db) (provider : OAuthProvider) (identity : OAuthIdentity)
    (id : String)
    → link given db provider identity id ≡ ok linked
    → Runs db linked
unfolding link
link-Runs given db linked provider identity id e =
    elim (Option-cases (identity_owner db provider identity.subject)) [
      | inr (owner, owned) ↦ ending (ground (arith, owned, e)) here
      | inl free ↦
          let row = identity_row given.identity_id id provider identity in
          let tried : (link_identity db row >>= unless_taken) ≡ ok linked =
            ground (arith, free, e) in
          let ((db', written), done, last) = >>=-eq-ok (link_identity db row) unless_taken tried in
          ending (ground (arith, last)) (next here (on_oauth (links row written done)))
    ]

resolve-Runs :
    (s : OAuthService) (given : Draws) (db : Db) (provider : OAuthProvider)
    (identity : OAuthIdentity) (state : StoredOAuthState) (context : SessionContext)
    → Runs db (resolve s given db provider identity state context).0
unfolding resolve
resolve-Runs s given db provider identity state context = elim (Option-cases state.user_id) [
  | inr (id, linking) ↦ elim (Result-cases (link given db provider identity id)) [
    | inl (f, refused) ↦ ending (ground (arith, linking, refused)) here
    | inr (linked, done) ↦ ending (ground (arith, linking, done)) (
        Runs-trans (link-Runs given db linked provider identity id done) (
          kept_or-Runs linked (sign_in s given linked id state.redirect_path context)
            (sign_in-Runs s given linked id state.redirect_path context)))
  ]
  | inl free ↦ elim (Option-cases (find_user_by_identity db provider identity.subject)) [
    | inl unbound ↦ ending (ground (arith, free, unbound)) (
        kept_or-Runs db (create_account s given db provider identity state.redirect_path)
          (λ db' o e. create_account-Runs s given db db' provider identity state.redirect_path o e))
    | inr (bound, found) ↦
        elim (Option-cases (active_pending_session db given.now provider identity.subject)) [
          | inr (pending, waits) ↦ ending (ground (arith, free, found, waits)) (
              resume_onboarding-Runs s given db provider identity bound state.redirect_path pending)
          | inl done ↦ ending (ground (arith, free, found, done)) (
              kept_or-Runs db (sign_in s given db bound.id state.redirect_path context)
                (sign_in-Runs s given db bound.id state.redirect_path context))
        ]
  ]
]

callback-Runs :
    (s : OAuthService) (given : Draws) (db : Db) (request : OAuthCallbackRequest)
    (context : SessionContext)
    → Runs
        (consume_state db given.now (s.crypto.hash_token request.state)).0
        (callback s given db request context).0
unfolding callback redeem
callback-Runs s given db request context =
    let spent = (consume_state db given.now (s.crypto.hash_token request.state)).0 in
    elim (Option-cases (consume_state db given.now (s.crypto.hash_token request.state)).1) [
      | inl missing ↦ ending (ground (arith, missing)) here
      | inr (state, redeemed) ↦ elim (Bool-cases (same_provider state.provider request.provider)) [
        | inr other ↦ ending (ground (arith, redeemed, other)) here
        | inl agrees ↦
            elim (Result-cases
              (exchange_identity s request.provider state.code_verifier_hash request.code)) [
                | inl (f, refused) ↦ ending (ground (arith, redeemed, agrees, refused)) here
                | inr (identity, told) ↦
                    ending (ground (arith, redeemed, agrees, told))
                      (resolve-Runs s given spent request.provider identity state context)
              ]
      ]
    ]

-- A state is spent by the first callback that redeems it, however that callback ends: whatever
-- statements follow, every later callback that names it is refused as an invalid state, whatever
-- provider and code it brings.
pub callback-once :
    (s : OAuthService) (given later : Draws) (db db' : Db) (request again : OAuthCallbackRequest)
    (context : SessionContext) (state : StoredOAuthState)
    → (consume_state db given.now (s.crypto.hash_token request.state)).1 ≡ some state
    → Runs (callback s given db request context).0 db'
    → given.now ≤ later.now
    → again.state ≡ request.state
    → (callback s later db' again context).1 ≡ err oauth_state_invalid
unfolding callback
callback-once s given later db db' request again context state redeemed r h one =
    let refused =
      consume_state-once db db' given.now later.now (s.crypto.hash_token request.state) state
        redeemed (Runs-trans (callback-Runs s given db request context) r) h in
    let missing : (consume_state db' later.now (s.crypto.hash_token again.state)).1 ≡ none =
      subst (λ t. (consume_state db' later.now (s.crypto.hash_token t)).1 ≡ none) (sym one)
        refused in
    ground (arith, missing)
