-- ===== src/Auth/Store/Spent.antt =====
-- What is over stays over: no statement revives a revoked session, a spent link or a spent state.
use jiuyue.Base.{
  text_key, nat_key, is_some, same, any, String, ◌≡◌, refl, sym, subst, Bool, false, ◌||◌, [], ◌∷◌,
  ◌++◌, arith,
}
use jiuyue.Base.Rows.{other_key, Over, update_where-Over, append-Over, any-find_first}
use jiuyue.Auth.Store.{Db, StoredSession}
use jiuyue.Auth.Store.Accounts.{
  insert_user, create_session, revoke_session, touch_session, revoke_all_sessions,
  mark_email_verified, update_password, session_of,
}
use jiuyue.Auth.Store.Statements.{
  AccountStatement, Statement, Runs, inserts_user, creates_session, revokes, touches, revokes_all,
  verifies, changes_password, here, next, on_accounts, on_links, on_oauth, LinkStatement-frame,
  OAuthStatement-frame,
}

abbrev pub has_id : String → StoredSession → Bool
has_id id s = same s.id id

abbrev pub is_revoked : StoredSession → Bool
is_revoked s = is_some s.revoked_at

-- The session exists and is revoked.
abbrev pub SessionOver : String → Db → Type 0
SessionOver id db = Over (has_id id) is_revoked db.sessions

AccountStatement-SessionOver :
    {db db' : Db} → AccountStatement db db' → (id : String) → SessionOver id db → SessionOver id db'
unfolding insert_user create_session revoke_session touch_session revoke_all_sessions
    mark_email_verified update_password
AccountStatement-SessionOver {db} {db'} (inserts_user u e) id o =
    let t : db'.sessions ≡ db.sessions = ground arith in
    subst (Over (has_id id) is_revoked) (sym t) o
AccountStatement-SessionOver {db} {db'} (creates_session s now e) id o =
    let t : db'.sessions ≡ db.sessions ++ session_of s now ∷ [] = ground arith in
    let taken =
      λ (x : StoredSession). same x.id s.id || same x.refresh_token_hash s.refresh_token_hash in
    let free : any taken db.sessions ≡ false = ground (arith, any-find_first taken db.sessions) in
    let other : has_id id (session_of s now) ≡ false =
      other_key (has_id id) taken db.sessions (session_of s now) (λ x a b. ground arith) o.present
        free in
    subst (Over (has_id id) is_revoked) (sym t)
      (append-Over (has_id id) is_revoked db.sessions (session_of s now) other o)
AccountStatement-SessionOver (revokes now i e) id o =
    subst (SessionOver id) (sym e) (update_where-Over _ _ _ _ _ (λ x. refl) (λ x d. refl) o)
AccountStatement-SessionOver (touches now i e) id o =
    subst (SessionOver id) (sym e) (update_where-Over _ _ _ _ _ (λ x. refl) (λ x d. d) o)
AccountStatement-SessionOver (revokes_all now i e) id o =
    subst (SessionOver id) (sym e) (update_where-Over _ _ _ _ _ (λ x. refl) (λ x d. refl) o)
AccountStatement-SessionOver (verifies now user e) id o = subst (SessionOver id) (sym e) o
AccountStatement-SessionOver (changes_password user phc e) id o = subst (SessionOver id) (sym e) o

Statement-SessionOver :
    {db db' : Db} → Statement db db' → (id : String) → SessionOver id db → SessionOver id db'
Statement-SessionOver (on_accounts s) id o = AccountStatement-SessionOver s id o
Statement-SessionOver (on_links s) id o =
    subst (Over (has_id id) is_revoked) (sym (LinkStatement-frame s).0) o
Statement-SessionOver (on_oauth s) id o =
    subst (Over (has_id id) is_revoked) (sym (OAuthStatement-frame s).0) o

pub Runs-SessionOver :
    {db db' : Db} → Runs db db' → (id : String) → SessionOver id db → SessionOver id db'
Runs-SessionOver here id o = o
Runs-SessionOver (next r s) id o = Statement-SessionOver s id (Runs-SessionOver r id o)
