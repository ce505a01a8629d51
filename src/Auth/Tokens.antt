-- ===== src/Auth/Tokens.antt =====
-- backend/crates/auth/src/token.rs: access tokens, and the opaque secrets that are stored as
-- digests. SHA-256, base64, the operating system's randomness and the signing of a JWT are
-- libraries' and enter as `Crypto`; the clock's answer is an argument.
pub mod Expiry
use jiuyue.Base.{
  ltb, leb, if◌then◌else◌, ℕ, ◌+◌, String, ◌≡◌, Bool, true, false, not, Option, none, some, min,
}
use jiuyue.Base.Word.{as_secs}
use Prim.Native.String.{len}
use jiuyue.Auth.Errors.{AuthError, Result, ok, err, config, clock, token, ◌>>=◌}

-- `i64::MAX`.
abbrev pub i64_max : ℕ
i64_max = 0x7fffffffffffffff

-- Seconds since the epoch; the clock never gives a negative one.
pub record AccessClaims : Type 0 where
  pub sub : String
  pub sid : String
  pub iat : ℕ
  pub exp : ℕ

-- `sign` is `jsonwebtoken::encode` with the server's key, and `verified` the check of a signature
-- by `decode`. Documented: what was signed with the key passes the check and decodes to itself.
pub record Crypto : Type 0 where
  pub hash_token : String → String
  pub sign : AccessClaims → String
  pub verified : String → Option AccessClaims
  pub verified-sign : (c : AccessClaims) → verified (sign c) ≡ some c

abbrev pub min_secret_bytes : ℕ
min_secret_bytes = 32

-- Documented of `Validation::new`: the leeway for a clock that runs differently.
abbrev pub leeway : ℕ
leeway = 60

-- The keys are in `Crypto`; durations are in nanoseconds.
pub record TokenIssuer : Type 0 where
  pub access_ttl : ℕ
  pub refresh_ttl : ℕ

unfoldable pub new : String → ℕ → ℕ → Result TokenIssuer
new secret access_ttl refresh_ttl =
    if ltb (len secret) min_secret_bytes
    then err (config "JWT secret must be at least 32 bytes of entropy")
    else ok (record { access_ttl = access_ttl; refresh_ttl = refresh_ttl })

pub record IssuedAccess : Type 0 where
  pub token : String
  pub expires_in : ℕ

-- `none` is a clock before the epoch.
unfoldable pub now_seconds : Option ℕ → Result ℕ
now_seconds none = err (clock "system clock is before the Unix epoch")
now_seconds (some elapsed) =
    if leb (as_secs elapsed) i64_max
    then ok (as_secs elapsed)
    else err (clock "system clock is outside the representable range")

-- `saturating_add` of an `i64` that is not negative.
abbrev pub saturating_add_i64 : ℕ → ℕ → ℕ
saturating_add_i64 a b = min (a + b) i64_max

module _ (c : Crypto) where
  unfoldable pub issue_access : TokenIssuer → Option ℕ → String → String → Result IssuedAccess
  unfolding now_seconds
  issue_access t now user_id session_id = do
    issued_at ← now_seconds now
    ok (record {
      token = c.sign (record {
        sub = user_id;
        sid = session_id;
        iat = issued_at;
        exp = saturating_add_i64 issued_at (min (as_secs t.access_ttl) i64_max);
      });
      expires_in = as_secs t.access_ttl;
    })

  -- Documented of `decode`: the signature first, then `exp` against the clock with the leeway.
  abbrev pub unexpired : ℕ → Option AccessClaims → Result AccessClaims
  unexpired now none = err token
  unexpired now (some claims) = if ltb (claims.exp + leeway) now then err token else ok claims

  unfoldable pub verify_access : String → ℕ → Result AccessClaims
  verify_access access_token now = unexpired now (c.verified access_token)
