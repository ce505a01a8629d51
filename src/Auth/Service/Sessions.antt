-- ===== src/Auth/Service/Sessions.antt =====
-- What ends a session, and what a sign-in gives: against every request that may come in between.
use jiuyue.Base.{
  text_key, nat_key, is_some, same, any, String, ◌≡◌, refl, sym, subst, ◌≢◌, true, not, ◌&&◌, some,
  List, arith,
}
use jiuyue.Base.Rows.{update_where-kills, find_first-none, any_weaken, undead}
use jiuyue.Auth.Errors.{ok}
use jiuyue.Auth.Tokens.{AccessClaims, verify_access}
use jiuyue.Auth.Store.{Db, SessionRow}
use jiuyue.Auth.Store.Accounts.{find_active_session_by_id, is_active, revoke_session, revoked}
use jiuyue.Auth.Store.Spent.{SessionOver, has_id, is_revoked, Runs-SessionOver}
use jiuyue.Auth.Service.{AuthService, World, Supply}
use jiuyue.Auth.Service.SignIn.{authenticate, logout, system_secs}
use jiuyue.Auth.Service.Requests.{Request, run, run-Runs}

-- No token of a session that is over is accepted.
authenticate-SessionOver :
    (s : AuthService) (given : Supply) (db : Db) (token : String) (claims : AccessClaims)
    (row : SessionRow)
    → s.crypto.verified token ≡ some claims
    → SessionOver claims.sid db
    → authenticate s given db token ≢ ok row
unfolding authenticate verify_access find_active_session_by_id
authenticate-SessionOver s given db token claims row v o e =
    let missing =
      find_first-none (λ x. is_active given.now x && same x.id claims.sid) db.sessions
        (any_weaken (λ x. is_active given.now x && same x.id claims.sid)
          (undead (has_id claims.sid) is_revoked) db.sessions (λ x a. ground arith) o.all_dead) in
    ground (arith, v, missing, e)

logout-SessionOver :
    (s : AuthService) (given : Supply) (w : World) (token : String) (claims : AccessClaims)
    → s.crypto.verified token ≡ some claims
    → (logout s given w token).1 ≡ ok tt
    → any (has_id claims.sid) w.db.sessions ≡ true
    → SessionOver claims.sid (logout s given w token).0.db
unfolding logout verify_access revoke_session
logout-SessionOver s given w token claims v h present =
    let ended =
      update_where-kills (has_id claims.sid) is_revoked
        (λ x. same x.id claims.sid && not (is_some x.revoked_at)) (revoked given.now) w.db.sessions
        (λ x. refl) (λ x. refl) (λ x k d. ground arith) present in
    let now = system_secs given.system in
    let db' : (logout s given w token).0.db ≡ revoke_session w.db given.now claims.sid =
      ground (arith, v, h) in
    subst (SessionOver claims.sid) (sym db') ended

-- A logout is final: whatever requests follow, and whenever, no access token that names the session
-- is accepted again.
pub logout-ends :
    (s : AuthService) (given later : Supply) (w : World) (token other : String)
    (claims claims' : AccessClaims) (rs : List Request) (row : SessionRow)
    → s.crypto.verified token ≡ some claims
    → any (has_id claims.sid) w.db.sessions ≡ true
    → (logout s given w token).1 ≡ ok tt
    → s.crypto.verified other ≡ some claims'
    → claims'.sid ≡ claims.sid
    → authenticate s later (run s (logout s given w token).0 rs).db other ≢ ok row
logout-ends s given later w token other claims claims' rs row v present h v' same_session =
    authenticate-SessionOver s later _ other claims' row v' (
      subst (λ id. SessionOver id (run s (logout s given w token).0 rs).db) (sym same_session)
        (Runs-SessionOver (run-Runs s (logout s given w token).0 rs) claims.sid
          (logout-SessionOver s given w token claims v h present)))
