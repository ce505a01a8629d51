-- ===== src/Auth/Store/States.antt =====
-- A state of third-party sign-in that is redeemed is never redeemed again.
use jiuyue.Base.{
  text_key, nat_key, ltb, Bool-cases, same, any, ℕ, ◌+◌, ◌≤◌, String, ◌≡◌, refl, sym, subst, inl,
  inr, Bool, true, false, not, ◌||◌, none, some, List, [], ◌∷◌, ◌++◌, is_some, arith,
}
use jiuyue.Base.Rows.{
  Over, undead, update_where-Over, append-Over, update_where-kills, find_first-none, any-find_first,
  any_weaken, other_key,
}
use jiuyue.Auth.Errors.{ok}
use jiuyue.Auth.Store.{Db, StateRow}
use jiuyue.Auth.Store.OAuth.{
  NewOAuthState, StoredOAuthState, insert_state, consume_state, link_identity, insert_identity,
  state_redeemable, state_spent,
}
use jiuyue.Auth.Store.Pending.{
  insert_pending, consume_pending_session_by_id, mint_pending_session, claim_username,
}
use jiuyue.Auth.Store.Statements.{
  OAuthStatement, Runs, here, next, on_accounts, on_links, on_oauth, inserts_state, consumes_state,
  links, inserts_identity, inserts_pending, consumes_pending, mints, claims, AccountStatement-frame,
  LinkStatement-frame,
}

abbrev pub state_named : String → StateRow → Bool
state_named hash x = same x.state_hash hash

-- Spent, or past its time.
abbrev pub state_dead : ℕ → StateRow → Bool
state_dead now x = is_some x.consumed_at || not (ltb now x.expires_at)

abbrev StatesOver : ℕ → String → List StateRow → Type 0
StatesOver now hash xs = Over (state_named hash) (state_dead now) xs

abbrev pub StateOver : ℕ → String → Db → Type 0
StateOver now hash db = StatesOver now hash db.oauth_states

insert_state-StateOver :
    (now : ℕ) (hash : String) (db db' : Db) (at : ℕ) (new : NewOAuthState)
    → insert_state db at new ≡ ok db'
    → StateOver now hash db
    → StateOver now hash db'
unfolding insert_state
insert_state-StateOver now hash db db' at new e o =
    let taken = λ (x : StateRow). same x.id new.id || same x.state_hash new.state_hash in
    let row : StateRow = record {
      id = new.id;
      state_hash = new.state_hash;
      provider = new.provider;
      code_verifier_hash = new.code_verifier_hash;
      redirect_path = new.redirect_path;
      user_id = new.user_id;
      consumed_at = none;
      expires_at = at + new.ttl;
    } in
    let free : any taken db.oauth_states ≡ false =
      ground (arith, e, any-find_first taken db.oauth_states) in
    let other : state_named hash row ≡ false =
      other_key (state_named hash) taken db.oauth_states row (λ x a c. ground arith) o.present
        free in
    let states' : db'.oauth_states ≡ db.oauth_states ++ row ∷ [] = ground (arith, e) in
    subst (StatesOver now hash) (sym states')
      (append-Over (state_named hash) (state_dead now) db.oauth_states row other o)

states_kept :
    (now : ℕ) (hash : String) (db db' : Db)
    → db'.oauth_states ≡ db.oauth_states
    → StateOver now hash db
    → StateOver now hash db'
states_kept now hash db db' e o = subst (StatesOver now hash) (sym e) o

-- The other statements on these tables leave the states alone.
OAuthStatement-StateOver :
    {db db' : Db} (now : ℕ) (hash : String)
    → OAuthStatement db db'
    → StateOver now hash db
    → StateOver now hash db'
unfolding consume_state link_identity insert_identity insert_pending consume_pending_session_by_id
    mint_pending_session claim_username
OAuthStatement-StateOver {db} {db'} now hash (inserts_state at new e) o =
    insert_state-StateOver now hash db db' at new e o
OAuthStatement-StateOver {db} now hash (consumes_state at h e) o =
    subst (StateOver now hash) (sym e) (
      update_where-Over (state_named hash) (state_dead now) (state_redeemable at h) (state_spent at)
        db.oauth_states (λ x. refl) (λ x d. refl) o)
OAuthStatement-StateOver {db} {db'} now hash (links i b e) o =
    states_kept now hash db db' (ground (arith, e)) o
OAuthStatement-StateOver {db} {db'} now hash (inserts_identity i e) o =
    states_kept now hash db db' (ground (arith, e)) o
OAuthStatement-StateOver {db} {db'} now hash (inserts_pending p e) o =
    states_kept now hash db db' (ground (arith, e)) o
OAuthStatement-StateOver {db} {db'} now hash (consumes_pending at id e) o =
    states_kept now hash db db' (ground (arith, e)) o
OAuthStatement-StateOver {db} {db'} now hash (mints p e) o =
    states_kept now hash db db' (ground (arith, e)) o
OAuthStatement-StateOver {db} {db'} now hash (claims at h username display_name u e) o =
    states_kept now hash db db' (ground (arith, e)) o

Runs-StateOver :
    {db db' : Db} (now : ℕ) (hash : String)
    → Runs db db'
    → StateOver now hash db
    → StateOver now hash db'
Runs-StateOver now hash here o = o
Runs-StateOver now hash (next r (on_accounts s)) o =
    subst (StatesOver now hash) (sym (AccountStatement-frame s).1) (Runs-StateOver now hash r o)
Runs-StateOver now hash (next r (on_links s)) o =
    subst (StatesOver now hash) (sym (LinkStatement-frame s).1) (Runs-StateOver now hash r o)
Runs-StateOver now hash (next r (on_oauth s)) o =
    OAuthStatement-StateOver now hash s (Runs-StateOver now hash r o)

consume_state-StateOver :
    (db : Db) (now : ℕ) (hash : String) (state : StoredOAuthState)
    → (consume_state db now hash).1 ≡ some state
    → StateOver now hash (consume_state db now hash).0
unfolding consume_state
consume_state-StateOver db now hash state e =
    update_where-kills (state_named hash) (state_dead now) (state_redeemable now hash)
      (state_spent now) db.oauth_states (λ x. refl) (λ x. refl) (λ x k d. ground arith) present
  where
    present : any (state_named hash) db.oauth_states ≡ true
    present = elim (Bool-cases (any (state_named hash) db.oauth_states)) [
      | inl t ↦ t
      | inr f ↦
          let missing = find_first-none (state_redeemable now hash) db.oauth_states (
            any_weaken (state_redeemable now hash) (state_named hash) db.oauth_states
              (λ x k. ground arith) f) in
          ground (arith, e, missing)
    ]

-- A state that was redeemed is refused at any later time, whatever statements ran in between.
pub consume_state-once :
    (db db' : Db) (now later : ℕ) (hash : String) (state : StoredOAuthState)
    → (consume_state db now hash).1 ≡ some state
    → Runs (consume_state db now hash).0 db'
    → now ≤ later
    → (consume_state db' later hash).1 ≡ none
unfolding consume_state
consume_state-once db db' now later hash state e r h =
    let over = Runs-StateOver now hash r (consume_state-StateOver db now hash state e) in
    let missing = find_first-none (state_redeemable later hash) db'.oauth_states (
      any_weaken (state_redeemable later hash) (undead (state_named hash) (state_dead now))
        db'.oauth_states (λ x a. ground arith) over.all_dead) in
    rw missing refl
