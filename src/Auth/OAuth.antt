-- ===== src/Auth/OAuth.antt =====
-- backend/crates/auth/src/oauth/provider.rs and pkce.rs: which providers there are, what is sent to
-- them, and the pair of PKCE. The client of HTTP, JSON and the encoding of forms are libraries' and
-- enter as `Wire`.
pub mod Json
pub mod Client
pub mod Handles
pub mod SignIn
pub mod Opening
pub mod Callback
pub mod Paths
pub mod Tests
use jiuyue.Base.{
  ltb, leb, if◌then◌else◌, is_some, ℕ, String, Bool, ◌&&◌, Option, none, some, List, [], ◌∷◌,
}
use Prim.Native.String.{◌++◌}
use jiuyue.Contract.{OAuthProvider, github, google}
use jiuyue.Chat.Text.{is_empty_text}
use jiuyue.Auth.Validation.{trim}
use jiuyue.Auth.Errors.{Result, ok, err, oauth_not_configured, ok_or, ◌>>=◌}
use jiuyue.Auth.Tokens.{Crypto}
use jiuyue.Auth.Mail.{trim_end_slashes}
use jiuyue.Auth.OAuth.Json.{Value}

abbrev pub github_authorize_url : String
github_authorize_url = "https://github.com/login/oauth/authorize"

abbrev pub github_token_url : String
github_token_url = "https://github.com/login/oauth/access_token"

abbrev pub google_authorize_url : String
google_authorize_url = "https://accounts.google.com/o/oauth2/v2/auth"

abbrev pub google_token_url : String
google_token_url = "https://oauth2.googleapis.com/token"

abbrev pub github_scopes : List String
github_scopes = "read:user" ∷ "user:email" ∷ []

abbrev pub google_scopes : List String
google_scopes = "openid" ∷ "email" ∷ "profile" ∷ []

pub record OAuthProviderConfig : Type 0 where
  pub provider : OAuthProvider
  pub client_id : Option String
  pub client_secret : Option String
  pub authorize_url : String
  pub token_url : String
  pub scopes : List String

unfoldable pub unconfigured : OAuthProvider → OAuthProviderConfig
unconfigured github = record {
  provider = github;
  client_id = none;
  client_secret = none;
  authorize_url = github_authorize_url;
  token_url = github_token_url;
  scopes = github_scopes;
}
unconfigured google = record {
  provider = google;
  client_id = none;
  client_secret = none;
  authorize_url = google_authorize_url;
  token_url = google_token_url;
  scopes = google_scopes;
}

abbrev pub non_blank : Option String → Option String
non_blank none = none
non_blank (some raw) =
    let trimmed = trim raw in if is_empty_text trimmed then none else some trimmed

unfoldable pub with_credentials :
    OAuthProviderConfig → Option String → Option String → OAuthProviderConfig
with_credentials config client_id client_secret = record config {
  client_id = non_blank client_id;
  client_secret = non_blank client_secret;
}

abbrev pub is_configured : OAuthProviderConfig → Bool
is_configured config = is_some config.client_id && is_some config.client_secret

-- The map from a provider to its configuration, which `from_credentials` fills for both.
pub record OAuthProviders : Type 0 where
  pub github_config : OAuthProviderConfig
  pub google_config : OAuthProviderConfig

unfoldable pub from_credentials :
    Option String × Option String → Option String × Option String → OAuthProviders
unfolding unconfigured with_credentials
from_credentials (github_id, github_secret) (google_id, google_secret) = record {
  github_config = with_credentials (unconfigured github) github_id github_secret;
  google_config = with_credentials (unconfigured google) google_id google_secret;
}

unfoldable pub get : OAuthProviders → OAuthProvider → OAuthProviderConfig
get ps github = ps.github_config
get ps google = ps.google_config

unfoldable pub require_provider : OAuthProviders → OAuthProvider → Result OAuthProviderConfig
unfolding get
require_provider ps provider =
    if is_configured (get ps provider) then ok (get ps provider) else err oauth_not_configured

abbrev pub only_configured : List OAuthProviderConfig → List OAuthProvider
only_configured [] = []
only_configured (c ∷ cs) =
    let rest = only_configured cs in if is_configured c then c.provider ∷ rest else rest

-- `OAuthService::configured_providers`, in the order of the map's keys.
unfoldable pub configured_providers : OAuthProviders → List OAuthProvider
configured_providers ps = only_configured (ps.github_config ∷ ps.google_config ∷ [])

pub data OAuthEndpoint : Type 0 where
  token_endpoint profile_endpoint : OAuthEndpoint

pub record OAuthRequest : Type 0 where
  pub endpoint : OAuthEndpoint
  pub url : String
  pub form : String
  pub headers : List (String × String)

pub record OAuthResponse : Type 0 where
  pub status : ℕ
  pub body : String

abbrev pub is_success : OAuthResponse → Bool
is_success r = leb 200 r.status && ltb r.status 300

-- `send` is the trait `OAuthClient`, `form` is `form_urlencoded`, `from_str` is `serde_json`'s, and
-- `base64_of_sha256` makes a challenge of a verifier.
pub record Wire : Type 0 where
  pub send : OAuthRequest → Result OAuthResponse
  pub form : List (String × String) → String
  pub from_str : String → Option Value
  pub base64_of_sha256 : String → String

unfoldable pub redirect_uri : String → String
unfolding trim_end_slashes
redirect_uri public_base_url = trim_end_slashes public_base_url ++ "/auth/oauth/callback"

-- `[&str]::join`.
abbrev join_from : String → List String → String
join_from s [] = s
join_from s (t ∷ ts) = join_from (s ++ (" " ++ t)) ts

abbrev join : List String → String
join [] = ""
join (s ∷ ss) = join_from s ss

abbrev offline : OAuthProvider → List (String × String)
offline github = []
offline google = ("access_type", "offline") ∷ []

abbrev challenge_method : String
challenge_method = "S256"

unfoldable pub authorization_url :
    Wire → OAuthProviderConfig → String → String → String → Result String
unfolding redirect_uri
authorization_url wire config public_base_url state code_challenge = do
  client_id ← ok_or config.client_id oauth_not_configured
  ok (
      config.authorize_url
      ++ ("?"
          ++ wire.form (
              ("response_type", "code")
              ∷ ("client_id", client_id)
              ∷ ("redirect_uri", redirect_uri public_base_url)
              ∷ ("scope", join config.scopes)
              ∷ ("state", state)
              ∷ ("code_challenge", code_challenge)
              ∷ ("code_challenge_method", challenge_method)
              ∷ offline config.provider)))

pub record PkcePair : Type 0 where
  pub verifier : String
  pub challenge : String

abbrev pub from_state_token : Crypto → Wire → String → PkcePair
from_state_token crypto wire state_token = record {
  verifier = crypto.hash_token state_token;
  challenge = wire.base64_of_sha256 (crypto.hash_token state_token);
}
