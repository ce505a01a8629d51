-- ===== src/Auth/Tokens/Expiry.antt =====
-- How long an access token lasts.
use jiuyue.Base.{text_key, nat_key, min, arith, true, refl}
use jiuyue.Base.{leb, if◌then◌else◌, text_key, nat_key, ℕ, ◌+◌, ◌≤◌, String, ◌≡◌, some}
use jiuyue.Base.Word.{as_secs}
use jiuyue.Auth.Errors.{ok, err, token}
use jiuyue.Auth.Tokens.{
  i64_max, AccessClaims, Crypto, leeway, TokenIssuer, IssuedAccess, now_seconds, issue_access,
  verify_access, min, true,
}

module _ (c : Crypto) where
  -- An access token that was issued at one time is accepted, with the User and the session that it
  -- was issued for, until its lifetime and the leeway have passed, and is refused from then on. No
  -- overflow: the lifetime ends in the range of the clock.
  pub verify_access-issue_access :
      (t : TokenIssuer) (issued now : ℕ) (user_id session_id : String)
      → as_secs issued + as_secs t.access_ttl ≤ i64_max
      → (issue : IssuedAccess) × (issue_access c t (some issued) user_id session_id ≡ ok issue)
        × (issue.expires_in ≡ as_secs t.access_ttl)
        × (verify_access c issue.token now ≡ (
            if leb now (as_secs issued + issue.expires_in + leeway)
            then ok (record {
              sub = user_id;
              sid = session_id;
              iat = as_secs issued;
              exp = as_secs issued + issue.expires_in;
            })
            else err token))
  unfolding issue_access verify_access now_seconds
  verify_access-issue_access t issued now user_id session_id h =
      let claims : AccessClaims = record {
        sub = user_id;
        sid = session_id;
        iat = as_secs issued;
        exp = as_secs issued + as_secs t.access_ttl;
      } in
      let ttl : min (as_secs t.access_ttl) i64_max ≡ as_secs t.access_ttl = ground arith in
      let sum : min (as_secs issued + as_secs t.access_ttl) i64_max
          ≡ as_secs issued + as_secs t.access_ttl =
        ground arith in
      let clock : leb (as_secs issued) i64_max ≡ true = ground arith in
      (
        record { token = c.sign claims; expires_in = as_secs t.access_ttl },
        rw (clock, ttl, sum) refl,
        refl,
        rw (c.verified-sign claims) (ground arith),
      )
