-- ===== src/Auth/Store/Statements.antt =====
-- Everything that the identity module ever does to its tables: its statements, as steps in any
-- order. Transactions of several statements are steps one after the other.
use jiuyue.Base.{arith, ℕ, String, Bool, ◌≡◌}
use jiuyue.Auth.Errors.{ok}
use jiuyue.Auth.Store.{Db, UserRow, IdentityRow, PendingRow, TokenPurpose}
use jiuyue.Auth.Store.Accounts.{
  NewSession, insert_user, create_session, revoke_session, touch_session, revoke_all_sessions,
  mark_email_verified, update_password,
}
use jiuyue.Auth.Store.Links.{NewToken, issue, consume}
use jiuyue.Auth.Store.OAuth.{
  NewOAuthState, insert_state, consume_state, link_identity, insert_identity,
}
use jiuyue.Auth.Store.Pending.{
  insert_pending, consume_pending_session_by_id, mint_pending_session, claim_username,
}

-- On `users` and `sessions`.
pub data AccountStatement (db db' : Db) : Type 0 where
  inserts_user : (u : UserRow) → insert_user db u ≡ ok db' → AccountStatement db db'
  creates_session :
      (s : NewSession) (now : ℕ) → create_session db s now ≡ ok db' → AccountStatement db db'
  revokes : (now : ℕ) (id : String) → db' ≡ revoke_session db now id → AccountStatement db db'
  touches : (now : ℕ) (id : String) → db' ≡ touch_session db now id → AccountStatement db db'
  revokes_all :
      (now : ℕ) (user : String) → db' ≡ revoke_all_sessions db now user → AccountStatement db db'
  verifies :
      (now : ℕ) (user : String)
      → db' ≡ (mark_email_verified db now user).0
      → AccountStatement db db'
  changes_password :
      (user phc : String) → db' ≡ (update_password db user phc).0 → AccountStatement db db'

-- On `account_tokens`.
pub data LinkStatement (db db' : Db) : Type 0 where
  issues : (now : ℕ) (t : NewToken) (b : Bool) → issue db now t ≡ ok (db', b) → LinkStatement db db'
  consumes :
      (now : ℕ) (hash : String) (purpose : TokenPurpose)
      → db' ≡ (consume db now hash purpose).0
      → LinkStatement db db'

-- On the tables of third-party sign-in.
pub data OAuthStatement (db db' : Db) : Type 0 where
  inserts_state :
      (now : ℕ) (s : NewOAuthState) → insert_state db now s ≡ ok db' → OAuthStatement db db'
  consumes_state :
      (now : ℕ) (hash : String) → db' ≡ (consume_state db now hash).0 → OAuthStatement db db'
  links : (i : IdentityRow) (b : Bool) → link_identity db i ≡ ok (db', b) → OAuthStatement db db'
  inserts_identity : (i : IdentityRow) → insert_identity db i ≡ ok db' → OAuthStatement db db'
  inserts_pending : (p : PendingRow) → insert_pending db p ≡ ok db' → OAuthStatement db db'
  consumes_pending :
      (now : ℕ) (id : String)
      → db' ≡ consume_pending_session_by_id db now id
      → OAuthStatement db db'
  mints : (p : PendingRow) → mint_pending_session db p ≡ ok db' → OAuthStatement db db'
  claims :
      (now : ℕ) (hash username display_name : String) (u : UserRow)
      → claim_username db now hash username display_name ≡ ok (db', u)
      → OAuthStatement db db'

pub data Statement (db db' : Db) : Type 0 where
  on_accounts : AccountStatement db db' → Statement db db'
  on_links : LinkStatement db db' → Statement db db'
  on_oauth : OAuthStatement db db' → Statement db db'

-- Any number of statements, one after the other.
pub data Runs (db : Db) : Db → Type 0 where
  here : Runs db db
  next : {x y : Db} → Runs db x → Statement x y → Runs db y

pub Runs-trans : {x y z : Db} → Runs x y → Runs y z → Runs x z
Runs-trans r here = r
Runs-trans r (next q s) = next (Runs-trans r q) s

-- What a statement leaves alone.
pub AccountStatement-frame :
    {db db' : Db}
    → AccountStatement db db'
    → (db'.account_tokens ≡ db.account_tokens) × (db'.oauth_states ≡ db.oauth_states)
unfolding insert_user create_session revoke_session touch_session revoke_all_sessions
    mark_email_verified update_password
AccountStatement-frame (inserts_user u e) = ground arith
AccountStatement-frame (creates_session s now e) = ground arith
AccountStatement-frame (revokes now id e) = ground arith
AccountStatement-frame (touches now id e) = ground arith
AccountStatement-frame (revokes_all now user e) = ground arith
AccountStatement-frame (verifies now user e) = ground arith
AccountStatement-frame (changes_password user phc e) = ground arith

pub LinkStatement-frame :
    {db db' : Db}
    → LinkStatement db db'
    → (db'.sessions ≡ db.sessions) × (db'.oauth_states ≡ db.oauth_states)
unfolding issue consume
LinkStatement-frame (issues now t b e) = ground arith
LinkStatement-frame (consumes now hash purpose e) = ground arith

pub OAuthStatement-frame :
    {db db' : Db}
    → OAuthStatement db db'
    → (db'.sessions ≡ db.sessions) × (db'.account_tokens ≡ db.account_tokens)
unfolding insert_state consume_state link_identity insert_identity insert_pending
    consume_pending_session_by_id mint_pending_session claim_username
OAuthStatement-frame (inserts_state now s e) = ground arith
OAuthStatement-frame (consumes_state now hash e) = ground arith
OAuthStatement-frame (links i b e) = ground arith
OAuthStatement-frame (inserts_identity i e) = ground arith
OAuthStatement-frame (inserts_pending p e) = ground arith
OAuthStatement-frame (consumes_pending now id e) = ground arith
OAuthStatement-frame (mints p e) = ground arith
OAuthStatement-frame (claims now hash username display_name u e) = ground arith
