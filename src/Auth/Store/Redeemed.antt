-- ===== src/Auth/Store/Redeemed.antt =====
-- A link or a state that is redeemed is never redeemed again, whatever statements follow.
use jiuyue.Base.{
  text_key, nat_key, ltb, if◌then◌else◌, Bool-cases, Option-cases, same, any, ℕ, ◌≤◌, String, ◌≡◌,
  refl, sym, subst, inl, inr, Bool, true, false, not, ◌&&◌, ◌||◌, none, some, List, [], ◌∷◌, ◌++◌,
  arith,
}
use jiuyue.Base.Rows.{
  Over, undead, update_where-Over, append-Over, update_where-kills, find_first-none, any-find_first,
  any_weaken, other_key,
}
use jiuyue.Auth.Errors.{ok}
use jiuyue.Auth.Store.{Db, AccountToken, TokenPurpose, find_user_by_id}
use jiuyue.Auth.Store.Links.{
  NewToken, issue, consume, retire, named, is_consumed, token_of, redeemable, same_purpose, spent,
}
use jiuyue.Auth.Store.Statements.{
  Statement, Runs, issues, consumes, here, next, on_accounts, on_links, on_oauth,
  AccountStatement-frame, OAuthStatement-frame,
}

-- Spent, or past its time.
abbrev pub link_dead : ℕ → AccountToken → Bool
link_dead now t = is_consumed t || not (ltb now t.expires_at)

abbrev LinksOver : ℕ → String → TokenPurpose → List AccountToken → Type 0
LinksOver now hash purpose ts = Over (named hash purpose) (link_dead now) ts

abbrev pub LinkOver : ℕ → String → TokenPurpose → Db → Type 0
LinkOver now hash purpose db = LinksOver now hash purpose db.account_tokens

retire-LinkOver :
    (now : ℕ) (hash : String) (purpose : TokenPurpose) (db : Db) (at : ℕ) (user : String)
    (retired : TokenPurpose)
    → LinkOver now hash purpose db
    → LinkOver now hash purpose (retire db at user retired)
unfolding retire
retire-LinkOver now hash purpose db at user retired o =
    update_where-Over (named hash purpose) (link_dead now)
      (λ x. same x.user_id user && (same_purpose x.purpose retired && not (is_consumed x)))
      (spent at) db.account_tokens (λ x. refl) (λ x d. refl) o

issue-LinkOver :
    (now : ℕ) (hash : String) (purpose : TokenPurpose) (db db' : Db) (at : ℕ) (t : NewToken)
    (b : Bool)
    → issue db at t ≡ ok (db', b)
    → LinkOver now hash purpose db
    → LinkOver now hash purpose db'
unfolding issue
issue-LinkOver now hash purpose db db' at t b e o =
    let retired = retire-LinkOver now hash purpose db at t.user_id t.purpose o in
    let taken =
      λ (x : AccountToken). if same x.id t.id then true else same x.token_hash t.token_hash in
    elim (Option-cases (find_user_by_id db t.user_id)) [
      | inl nobody ↦
          let same_links : db' ≡ retire db at t.user_id t.purpose = ground (arith, nobody) in
          subst (LinkOver now hash purpose) (sym same_links) retired
      | inr (u, known) ↦
          let free : any taken db.account_tokens ≡ false =
            ground (arith, known, any-find_first taken db.account_tokens) in
          let other : named hash purpose (token_of t at) ≡ false =
            other_key (named hash purpose) taken db.account_tokens (token_of t at)
              (λ x a c. ground arith) o.present free in
          let links' : db'.account_tokens
              ≡ (retire db at t.user_id t.purpose).account_tokens ++ token_of t at ∷ [] =
            ground (arith, known) in
          subst (LinksOver now hash purpose) (sym links')
            (append-Over _ _ _ (token_of t at) other retired)
    ]

Statement-LinkOver :
    {db db' : Db} (now : ℕ) (hash : String) (purpose : TokenPurpose)
    → Statement db db'
    → LinkOver now hash purpose db
    → LinkOver now hash purpose db'
unfolding consume
Statement-LinkOver now hash purpose (on_accounts s) o =
    subst (LinksOver now hash purpose) (sym (AccountStatement-frame s).0) o
Statement-LinkOver {db} {db'} now hash purpose (on_links (issues at t b e)) o =
    issue-LinkOver now hash purpose db db' at t b e o
Statement-LinkOver {db} now hash purpose (on_links (consumes at h p e)) o =
    subst (LinkOver now hash purpose) (sym e) (
      update_where-Over (named hash purpose) (link_dead now) (redeemable at h p) (spent at)
        db.account_tokens (λ x. refl) (λ x d. refl) o)
Statement-LinkOver now hash purpose (on_oauth s) o =
    subst (LinksOver now hash purpose) (sym (OAuthStatement-frame s).1) o

Runs-LinkOver :
    {db db' : Db} (now : ℕ) (hash : String) (purpose : TokenPurpose)
    → Runs db db'
    → LinkOver now hash purpose db
    → LinkOver now hash purpose db'
Runs-LinkOver now hash purpose here o = o
Runs-LinkOver now hash purpose (next r s) o =
    Statement-LinkOver now hash purpose s (Runs-LinkOver now hash purpose r o)

consume-LinkOver :
    (db : Db) (now : ℕ) (hash : String) (purpose : TokenPurpose) (user : String)
    → (consume db now hash purpose).1 ≡ some user
    → LinkOver now hash purpose (consume db now hash purpose).0
unfolding consume
consume-LinkOver db now hash purpose user e =
    update_where-kills (named hash purpose) (link_dead now) (redeemable now hash purpose)
      (spent now) db.account_tokens (λ x. refl) (λ x. refl) (λ x k d. ground arith) present
  where
    present : any (named hash purpose) db.account_tokens ≡ true
    present = elim (Bool-cases (any (named hash purpose) db.account_tokens)) [
      | inl t ↦ t
      | inr f ↦
          let missing = find_first-none (redeemable now hash purpose) db.account_tokens (
            any_weaken (redeemable now hash purpose) (named hash purpose) db.account_tokens
              (λ x k. ground arith) f) in
          ground (arith, e, missing)
    ]

-- A link that was redeemed is refused at any later time, whatever statements ran in between: it is
-- not revived, and no link is issued under its digest again.
pub consume-once :
    (db db' : Db) (now later : ℕ) (hash : String) (purpose : TokenPurpose) (user : String)
    → (consume db now hash purpose).1 ≡ some user
    → Runs (consume db now hash purpose).0 db'
    → now ≤ later
    → (consume db' later hash purpose).1 ≡ none
unfolding consume
consume-once db db' now later hash purpose user e r h =
    let over = Runs-LinkOver now hash purpose r (consume-LinkOver db now hash purpose user e) in
    let missing = find_first-none (redeemable later hash purpose) db'.account_tokens (
      any_weaken (redeemable later hash purpose) (undead (named hash purpose) (link_dead now))
        db'.account_tokens (λ x a. ground arith) over.all_dead) in
    rw missing refl
