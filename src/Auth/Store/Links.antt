-- ===== src/Auth/Store/Links.antt =====
-- backend/crates/auth/src/account_tokens.rs: the one-shot links for an email or a new password.
use jiuyue.Base.{
  ltb, if◌then◌else◌, same, find_first, update_where, ℕ, ◌+◌, String, Bool, true, false, not, ◌&&◌,
  Option, none, some, [], ◌∷◌, ◌++◌, is_some,
}
use jiuyue.Chat.Ident.{is_ulid}
use jiuyue.Auth.Errors.{Result, ok, database, require, ◌>>◌}
use jiuyue.Auth.Store.{
  Db, AccountToken, TokenPurpose, email_verification, password_reset, find_user_by_id,
}

-- The lifetime is in microseconds.
pub record NewToken : Type 0 where
  pub id : String
  pub user_id : String
  pub purpose : TokenPurpose
  pub token_hash : String
  pub ttl : ℕ

abbrev pub same_purpose : TokenPurpose → TokenPurpose → Bool
same_purpose email_verification email_verification = true
same_purpose email_verification password_reset = false
same_purpose password_reset email_verification = false
same_purpose password_reset password_reset = true

abbrev pub is_consumed : AccountToken → Bool
is_consumed t = is_some t.consumed_at

-- `StoredToken::is_expired`, by the clock of the application.
abbrev pub is_expired : ℕ → AccountToken → Bool
is_expired clock t = not (ltb clock t.expires_at)

abbrev pub spent : ℕ → AccountToken → AccountToken
spent now t = record t { consumed_at = some now }

-- The first statement of `issue`: outstanding links of the purpose are retired.
unfoldable pub retire : Db → ℕ → String → TokenPurpose → Db
retire db now user_id purpose = record db {
  account_tokens =
      update_where
        (λ t. same t.user_id user_id && (same_purpose t.purpose purpose && not (is_consumed t)))
        (spent now) db.account_tokens;
}

abbrev pub token_of : NewToken → ℕ → AccountToken
token_of t now = record {
  id = t.id;
  user_id = t.user_id;
  purpose = t.purpose;
  token_hash = t.token_hash;
  expires_at = now + t.ttl;
  consumed_at = none;
}

-- One transaction. For a User who does not exist the same statements run and no row is written.
unfoldable pub issue : Db → ℕ → NewToken → Result (Db × Bool)
unfolding retire
issue db now t =
    let retired = retire db now t.user_id t.purpose in
    elim (find_user_by_id db t.user_id) [
      | none ↦ ok (retired, false)
      | some _ ↦ do
        require (is_ulid t.id) database
        require
            (not (
              is_some (
                find_first (λ o. if same o.id t.id then true else same o.token_hash t.token_hash)
                  db.account_tokens)))
            database
        ok (record retired { account_tokens = retired.account_tokens ++ token_of t now ∷ [] }, true)
    ]

abbrev pub named : String → TokenPurpose → AccountToken → Bool
named token_hash purpose t = same t.token_hash token_hash && same_purpose t.purpose purpose

unfoldable pub find : Db → String → TokenPurpose → Option AccountToken
find db token_hash purpose = find_first (named token_hash purpose) db.account_tokens

abbrev pub redeemable : ℕ → String → TokenPurpose → AccountToken → Bool
redeemable now token_hash purpose t =
    named token_hash purpose t && (not (is_consumed t) && ltb now t.expires_at)

abbrev pub owner_of : Option AccountToken → Option String
owner_of none = none
owner_of (some t) = some t.user_id

-- One UPDATE: its filter decides, and its RETURNING names the owner.
unfoldable pub consume : Db → ℕ → String → TokenPurpose → Db × Option String
consume db now token_hash purpose = (
  record db {
    account_tokens = update_where (redeemable now token_hash purpose) (spent now) db.account_tokens;
  },
  owner_of (find_first (redeemable now token_hash purpose) db.account_tokens),
)
