-- ===== src/Auth/OAuth/Handles.antt =====
-- backend/crates/auth/src/oauth/service.rs: the handle that a new account is given.
pub mod Valid
use jiuyue.Base.{
  ltb, leb, ◌==◌, if◌then◌else◌, length, ℕ, zero, suc, ◌+◌, ◌-◌, ◌%◌, min, String, ◌≡◌, Bool, ◌&&◌,
  ◌||◌, Option, none, some, List, [], ◌∷◌,
}
use Prim.Native.String.{◌++◌}
use Prim.Native.Char.{Char, code, nul}
use jiuyue.Contract.{OAuthProvider, github, google}
use jiuyue.Chat.Text.{is_empty_text}
use jiuyue.Auth.Validation.{
  count, username_min_chars, username_max_chars, is_ascii_lowercase, is_ascii_digit,
}
use jiuyue.Auth.Errors.{Result, ok, ◌>>=◌}
use jiuyue.Auth.OAuth.Client.{OAuthIdentity}

abbrev pub max_username_attempts : ℕ
max_username_attempts = 8

abbrev pub suffix_digits : ℕ
suffix_digits = 6

abbrev pub max_suffix : ℕ
max_suffix = 10

-- The operating system's randomness. Documented of `getrandom::fill`: it fills the whole buffer.
pub record Random : Type 0 where
  pub fill : ℕ → Result (List ℕ)
  pub length-fill : (n : ℕ) (bytes : List ℕ) → fill n ≡ ok bytes → length bytes ≡ n

abbrev pub suffix_alphabet : String
suffix_alphabet = "abcdefghijklmnopqrstuvwxyz0123456789"

abbrev pub letters : String
letters = "abcdefghijklmnopqrstuvwxyz"

-- The character at a position, which is below the length wherever it is asked for.
abbrev pub nth : ℕ → String → Char
nth n String.[] = nul
nth zero (String.◌∷◌ c s) = c
nth (suc n) (String.◌∷◌ c s) = nth n s

abbrev pub suffix_of : List ℕ → String
suffix_of [] = ""
suffix_of (byte ∷ bytes) = String.◌∷◌ (nth (byte % 36) suffix_alphabet) (suffix_of bytes)

unfoldable pub random_suffix : Random → ℕ → Result String
random_suffix random n = random.fill n >>= λ bytes. ok (suffix_of bytes)

-- `.chars().take(n)`.
abbrev pub take_chars : ℕ → String → String
take_chars zero s = ""
take_chars (suc n) String.[] = ""
take_chars (suc n) (String.◌∷◌ c s) = String.◌∷◌ c (take_chars n s)

-- A candidate that is too short is padded.
abbrev pub padded : Random → String → Result String
padded random candidate =
    if ltb (count candidate) username_min_chars
    then random_suffix random (username_min_chars - count candidate)
      >>= (λ padding. ok (candidate ++ padding))
    else ok candidate

unfoldable pub generated_username : Random → String → ℕ → Result String
unfolding random_suffix
generated_username random base attempt = do
  suffix ← random_suffix random (min (suffix_digits + attempt) max_suffix)
  padded random (take_chars (username_max_chars - count suffix) base ++ suffix)

abbrev pub is_upper : ℕ → Bool
is_upper c = leb b'A' c && leb c b'Z'

-- `to_ascii_lowercase`, and what is no part of a handle becomes an underscore.
abbrev pub handle_char : Char → Char
handle_char c =
    if is_upper (code c)
    then nth (code c - b'A') letters
    else (if is_ascii_lowercase (code c) || (is_ascii_digit (code c) || (code c == b'_'))
        then c
        else "_")

-- `.chars().map(..).take(n)`.
abbrev pub cleaned : ℕ → String → String
cleaned zero s = ""
cleaned (suc n) String.[] = ""
cleaned (suc n) (String.◌∷◌ c s) = String.◌∷◌ (handle_char c) (cleaned n s)

-- `trim_matches('_')`.
abbrev pub trim_start_underscores : String → String
trim_start_underscores String.[] = ""
trim_start_underscores (String.◌∷◌ c s) =
    let rest = trim_start_underscores s in if code c == b'_' then rest else String.◌∷◌ c s

abbrev pub trim_end_underscores : String → String
trim_end_underscores String.[] = ""
trim_end_underscores (String.◌∷◌ c s) =
    let rest = trim_end_underscores s in
    if (code c == b'_') && is_empty_text rest then "" else String.◌∷◌ c rest

abbrev pub collapsed : String → Option String
collapsed text = if is_empty_text text then none else some text

unfoldable pub sanitise : Option String → Option String
sanitise none = none
sanitise (some value) = collapsed (
    trim_end_underscores
      (trim_start_underscores (cleaned (username_max_chars - suffix_digits) value)))

-- `email.split('@').next()`.
abbrev pub before_at : String → String
before_at String.[] = ""
before_at (String.◌∷◌ c s) =
    let rest = before_at s in if code c == b'@' then "" else String.◌∷◌ c rest

abbrev pub mailbox : Option String → Option String
mailbox none = none
mailbox (some email) = some (before_at email)

abbrev pub preferred : OAuthIdentity → Option String
preferred identity = elim identity.display_name [
  | none ↦ mailbox identity.email
  | some name ↦ some name
]

abbrev pub provider_handle : OAuthProvider → String
provider_handle github = "github"
provider_handle google = "google"

unfoldable pub suggested_username : OAuthIdentity → OAuthProvider → String
unfolding sanitise
suggested_username identity provider = elim (sanitise (preferred identity)) [
  | none ↦ provider_handle provider
  | some base ↦ base
]
