-- ===== src/Auth/Service/Tests/Plain.antt =====
-- A signature, a hasher and a service that the identity module's examples run with.
use jiuyue.Base.{
  text_key, nat_key, ◌==◌, if◌then◌else◌, same, ℕ, zero, suc, ◌*◌, String, ◌≡◌, refl, ap, subst,
  ◌∙◌, Bool, true, Option, none, some, [], ◌∷◌, arith,
}
use jiuyue.Auth.Limiter.Store
use jiuyue.Base.Word.{from_secs}
use jiuyue.Auth.Errors.{Result, ok, ◌>>=◌}
use jiuyue.Auth.Store.{UserRow}
use jiuyue.Auth.Service.{AuthService, PasswordHasher, World, Supply, SessionContext}
use text.Mathlib.TextEquality.{eq_iff}
use jiuyue.Auth.Tokens.{AccessClaims, Crypto}
use Prim.Native.Char.{Char, code}

-- A signature that hides nothing: the fields, each of their parts after a mark.
abbrev write_nat : ℕ → String → String
write_nat zero rest = String.◌∷◌ "n" rest
write_nat (suc n) rest = String.◌∷◌ "y" (write_nat n rest)

abbrev write_text : String → String → String
write_text String.[] rest = String.◌∷◌ "n" rest
write_text (String.◌∷◌ c s) rest = String.◌∷◌ "y" (String.◌∷◌ c (write_text s rest))

abbrev is_mark : Char → Bool
is_mark c = code c == 121

abbrev one_more : Option (ℕ × String) → Option (ℕ × String)
one_more none = none
one_more (some (n, rest)) = some (suc n, rest)

abbrev one_char : Char → Option (String × String) → Option (String × String)
one_char c none = none
one_char c (some (s, rest)) = some (String.◌∷◌ c s, rest)

abbrev read_nat : String → Option (ℕ × String)
read_nat String.[] = none
read_nat (String.◌∷◌ c rest) =
    let more = one_more (read_nat rest) in if is_mark c then more else some (0, rest)

abbrev read_text : String → Option (String × String)
read_text String.[] = none
read_text (String.◌∷◌ c String.[]) = if is_mark c then none else some ("", "")
read_text (String.◌∷◌ c (String.◌∷◌ d rest)) =
    let more = one_char d (read_text rest) in
    if is_mark c then more else some ("", String.◌∷◌ d rest)

read_nat-write_nat : (n : ℕ) (rest : String) → read_nat (write_nat n rest) ≡ some (n, rest)
read_nat-write_nat zero rest = refl
read_nat-write_nat (suc n) rest = ap one_more (read_nat-write_nat n rest)

read_text-write_text : (s rest : String) → read_text (write_text s rest) ≡ some (s, rest)
read_text-write_text String.[] String.[] = refl
read_text-write_text String.[] (String.◌∷◌ c rest) = refl
read_text-write_text (String.◌∷◌ c s) rest = ap (one_char c) (read_text-write_text s rest)

abbrev sign_of : AccessClaims → String
sign_of c = write_nat c.iat (write_nat c.exp (write_text c.sub (write_text c.sid "")))

abbrev with_sid : ℕ → ℕ → String → Option (String × String) → Option AccessClaims
with_sid iat exp sub none = none
with_sid iat exp sub (some (sid, rest)) =
    some (record { sub = sub; sid = sid; iat = iat; exp = exp })

abbrev with_sub : ℕ → ℕ → Option (String × String) → Option AccessClaims
with_sub iat exp none = none
with_sub iat exp (some (sub, rest)) = with_sid iat exp sub (read_text rest)

abbrev with_exp : ℕ → Option (ℕ × String) → Option AccessClaims
with_exp iat none = none
with_exp iat (some (exp, rest)) = with_sub iat exp (read_text rest)

abbrev with_iat : Option (ℕ × String) → Option AccessClaims
with_iat none = none
with_iat (some (iat, rest)) = with_exp iat (read_nat rest)

pub verified_of-sign_of : (c : AccessClaims) → with_iat (read_nat (sign_of c)) ≡ some c
verified_of-sign_of c =
    ap with_iat (read_nat-write_nat c.iat _)
    ∙ (ap (with_exp c.iat) (read_nat-write_nat c.exp _)
        ∙ (ap (with_sub c.iat c.exp) (read_text-write_text c.sub _)
            ∙ ap (with_sid c.iat c.exp c.sub) (read_text-write_text c.sid "")))

abbrev pub plain : Crypto
plain = record {
  hash_token = λ token. String.◌∷◌ "#" token;
  sign = sign_of;
  verified = λ token. with_iat (read_nat token);
  verified-sign = verified_of-sign_of;
}

pub same_self : (password : String) → Result.ok (same password password) ≡ ok true
same_self password = ground (arith, eq_iff password password)

-- A hash that is the password.
abbrev pub bare : PasswordHasher
bare = record {
  hash = λ salt password. ok password;
  verify = λ password phc. ok (same password phc);
  verify-hash = λ salt password phc e.
      subst (λ (r : Result String). r >>= (λ h. ok (same password h)) ≡ ok true) e
        (same_self password);
}

-- Access tokens for 20 seconds, sessions for a day, links for an hour.
abbrev pub service : AuthService
service = record {
  crypto = plain;
  hasher = bare;
  to_lowercase = λ s. s;
  tokens = record { access_ttl = from_secs 20; refresh_ttl = from_secs 86400 };
  public_base_url = "https://jiuyue.example/";
  verification_token_ttl = from_secs 3600;
  reset_token_ttl = from_secs 3600;
  dummy_hash = "throwaway";
}

abbrev pub alice : UserRow
alice = record {
  id = "01ARZ3NDEKTSV4RRFFQ69G5FAV";
  username = "alice";
  email = "alice@example.com";
  display_name = "Alice";
  avatar_url = none;
  password_hash = some "correct horse";
  email_verified_at = none;
  created_at = 0;
}

abbrev pub home : SessionContext
home = record { device_label = none; user_agent = none; ip_address = some "192.0.2.1" }

-- One account, and nothing else.
abbrev pub start : World
start = record {
  db = record {
    users = alice ∷ [];
    sessions = [];
    account_tokens = [];
    oauth_identities = [];
    oauth_states = [];
    oauth_pending_sessions = [];
  };
  login_attempts = Store.new (record {
    max_failures = 5;
    window = from_secs 900;
    throttle = from_secs 30;
    max_throttles = 3;
    lockout = from_secs 900;
    max_tracked_sources = 100;
  });
  email_attempts = Store.new (record {
    max_failures = 5;
    window = from_secs 900;
    throttle = from_secs 30;
    max_throttles = 3;
    lockout = from_secs 900;
    max_tracked_sources = 100;
  });
  outbox = [];
}

-- What the request of a second is given.
abbrev pub second : ℕ → String → Supply
second n id = record {
  now = n * 1_000_000;
  system = some (from_secs n);
  instant = from_secs n;
  user_id = id;
  session_id = id;
  link_id = id;
  salt = n;
  refresh_secret = ok id;
  link_secret = ok id;
}

abbrev pub first_id : String
first_id = "01BRZ3NDEKTSV4RRFFQ69G5FAV"

abbrev pub next_id : String
next_id = "01CRZ3NDEKTSV4RRFFQ69G5FAV"
