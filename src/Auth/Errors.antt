-- ===== src/Auth/Errors.antt =====
-- backend/crates/auth/src/error.rs, and the result that every use case returns.
use jiuyue.Base.{
  text_key, nat_key, ℕ, String, ◌≡◌, refl, ◌⊎◌, inl, inr, Bool, true, false, Option, none, some,
  List,
}
use jiuyue.Contract.{FieldError}

-- The causes that libraries report are dropped, the texts for the log are kept.
pub data AuthError : Type 0 where
  validation : List FieldError → AuthError
  email_taken username_taken invalid_credentials : AuthError
  too_many_attempts locked_out : ℕ → AuthError
  email_not_verified token_expired token_invalid account_missing account_exists : AuthError
  oauth_identity_taken oauth_state_invalid : AuthError
  oauth_provider_error : String → AuthError
  oauth_not_configured username_required unauthenticated : AuthError
  params hash token database : AuthError
  config clock : String → AuthError
  random worker : AuthError

-- `Result<A, AuthError>`.
pub data Result {ℓ} (A : Type ℓ) : Type ℓ where
  err : AuthError → Result A
  ok : A → Result A

-- `Option::ok_or`.
abbrev pub ok_or {ℓ} : {A : Type ℓ} → Option A → AuthError → Result A
ok_or none e = err e
ok_or (some a) e = ok a

-- `if !test { return Err(e) }`.
abbrev pub require : Bool → AuthError → Result (Unit {0})
require false e = err e
require true e = ok tt

-- The `?` operator.
infixl 5 ◌>>=◌ ◌>>◌
abbrev pub ◌>>=◌ {ℓ κ} : {A : Type ℓ} {B : Type κ} → Result A → (A → Result B) → Result B
step >>= rest = elim step [ err e ↦ err e | ok a ↦ rest a ]

abbrev pub ◌>>◌ {κ} : {B : Type κ} → Result (Unit {0}) → Result B → Result B
step >> rest = elim step [ err e ↦ err e | ok _ ↦ rest ]

pub Result-cases {ℓ} :
    {A : Type ℓ} (r : Result A) → ((e : AuthError) × (r ≡ err e)) ⊎ ((a : A) × (r ≡ ok a))
Result-cases (err e) = inl (e, refl)
Result-cases (ok a) = inr (a, refl)

-- Inversion of a successful step.
pub >>=-eq-ok {ℓ κ} :
    {A : Type ℓ} {B : Type κ} (r : Result A) (rest : A → Result B) {b : B}
    → (r >>= rest) ≡ ok b
    → (a : A) × (r ≡ ok a) × (rest a ≡ ok b)
>>=-eq-ok (ok a) rest h = (a, refl, h)
>>=-eq-ok (err e) rest h = cc

pub require-eq-ok {κ} :
    {B : Type κ} (test : Bool) (e : AuthError) (rest : Result B) {b : B}
    → (require test e >> rest) ≡ ok b
    → (test ≡ true) × (rest ≡ ok b)
require-eq-ok true e rest h = (refl, h)
require-eq-ok false e rest h = cc
