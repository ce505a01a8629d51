-- ===== src/Auth/OAuth/Client.antt =====
-- backend/crates/auth/src/oauth/client.rs: what is asked of each provider, and how an identity is
-- read out of the answers. `HttpOAuthClient` is left out: it is the HTTP client behind `Wire`.
use jiuyue.Base.{if◌then◌else◌, same, String, Bool, true, false, Option, none, some, [], ◌∷◌}
use Prim.Native.String.{◌++◌}
use jiuyue.Contract.{OAuthProvider, github, google}
use jiuyue.Chat.Text.{is_empty_text}
use jiuyue.Auth.Validation.{trim}
use jiuyue.Auth.Errors.{
  AuthError, Result, ok, err, oauth_not_configured, oauth_provider_error, ok_or, ◌>>=◌,
}
use jiuyue.Auth.Mail.{decimal}
use jiuyue.Auth.OAuth.{
  OAuthProviderConfig, OAuthRequest, OAuthResponse, token_endpoint, profile_endpoint, is_success,
  Wire, redirect_uri,
}
use jiuyue.Auth.OAuth.Json.{
  Value, Values, null, boolean, number, string, array, object, no_values, value, get, as_text,
  text_at, true_at,
}

pub record OAuthIdentity : Type 0 where
  pub subject : String
  pub email : Option String
  pub email_verified : Bool
  pub display_name : Option String

-- `.filter(|text| !text.is_empty())`.
abbrev pub nonempty : Option String → Option String
nonempty none = none
nonempty (some text) = if is_empty_text text then none else some text

-- `.filter(|text| !text.trim().is_empty())`.
abbrev pub not_blank : Option String → Option String
not_blank none = none
not_blank (some text) = if is_empty_text (trim text) then none else some text

abbrev pub or_else : Option String → Option String → Option String
or_else none b = b
or_else (some a) b = some a

abbrev pub no_access_token : OAuthProvider → AuthError
no_access_token github = oauth_provider_error "the GitHub token response carried no access token"
no_access_token google = oauth_provider_error "the Google token response carried no access token"

-- Both adapters send the same form.
unfoldable pub token_request :
    Wire → OAuthProviderConfig → String → String → String → Result OAuthRequest
unfolding redirect_uri
token_request wire config public_base_url code code_verifier = do
  client_id ← ok_or config.client_id oauth_not_configured
  client_secret ← ok_or config.client_secret oauth_not_configured
  ok (record {
    endpoint = token_endpoint;
    url = config.token_url;
    form = wire.form (
        ("grant_type", "authorization_code")
        ∷ ("code", code)
        ∷ ("client_id", client_id)
        ∷ ("client_secret", client_secret)
        ∷ ("redirect_uri", redirect_uri public_base_url)
        ∷ ("code_verifier", code_verifier)
        ∷ []);
    headers = ("Accept", "application/json") ∷ [];
  })

unfoldable pub parse_response : Wire → OAuthResponse → Result Value
parse_response wire response =
    if is_success response
    then ok_or (wire.from_str response.body)
        (oauth_provider_error "the provider answered unparseable JSON")
    else err (oauth_provider_error ("the provider answered HTTP " ++ decimal response.status))

unfoldable pub access_token : Wire → OAuthProvider → OAuthResponse → Result String
unfolding parse_response
access_token wire provider response = do
  parsed ← parse_response wire response
  ok_or (nonempty (text_at "access_token" parsed)) (no_access_token provider)

-- The version of the crate is the build's.
unfoldable pub github_request : String → String → String → OAuthRequest
github_request version path access_token = record {
  endpoint = profile_endpoint;
  url = "https://api.github.com" ++ path;
  form = "";
  headers =
      ("Accept", "application/vnd.github+json")
      ∷ ("Authorization", "Bearer " ++ access_token)
      ∷ ("User-Agent", "jiuyue/" ++ version)
      ∷ [];
}

unfoldable pub google_request : String → OAuthRequest
google_request access_token = record {
  endpoint = profile_endpoint;
  url = "https://openidconnect.googleapis.com/v1/userinfo";
  form = "";
  headers = ("Authorization", "Bearer " ++ access_token) ∷ [];
}

abbrev pub id_text : Option Value → Option String
id_text none = none
id_text (some (number text)) = some text
id_text (some (string text)) = some text
id_text (some null) = none
id_text (some (boolean b)) = none
id_text (some (array vs)) = none
id_text (some (object fs)) = none

-- `get("login").or_else(|| get("name"))`: a login that is no text hides the name.
abbrev pub login_or_name : Value → Option String
login_or_name v = elim (get "login" v) [ none ↦ text_at "name" v | some login ↦ as_text login ]

unfoldable pub github_subject : Value → Result (String × Option String)
github_subject v = do
  subject ←
      ok_or (nonempty (id_text (get "id" v)))
        (oauth_provider_error "the GitHub profile carried no account id")
  ok (subject, not_blank (login_or_name v))

pub record GithubAddress : Type 0 where
  pub email : String
  pub verified : Bool

module _ (to_lowercase : String → String) where
  -- `.map(|value| value.trim().to_lowercase()).filter(|value| !value.is_empty())`.
  abbrev pub address : Option String → Option String
  address none = none
  address (some raw) = nonempty (some (to_lowercase (trim raw)))

  unfoldable pub github_identity : Wire → OAuthResponse → Result OAuthIdentity
  unfolding parse_response github_subject
  github_identity wire response = do
    v ← parse_response wire response
    (subject, display_name) ← github_subject v
    ok (record {
      subject = subject;
      email = address (text_at "email" v);
      email_verified = false;
      display_name = display_name;
    })

  abbrev pub address_of : Value → Option GithubAddress
  address_of entry = elim (address (text_at "email" entry)) [
    | none ↦ none
    | some email ↦ some (record { email = email; verified = true_at "verified" entry })
  ]

  abbrev pub find_entry : (Value → Bool) → Values → Option Value
  find_entry p no_values = none
  find_entry p (value v vs) = let rest = find_entry p vs in if p v then some v else rest

  -- The first entry that passes; it is not looked past it when it has no address.
  abbrev pub choose : (Value → Bool) → Values → Option GithubAddress
  choose p entries = elim (find_entry p entries) [ none ↦ none | some entry ↦ address_of entry ]

  abbrev pub first_chosen : Option GithubAddress → Option GithubAddress → Option GithubAddress
  first_chosen none b = b
  first_chosen (some a) b = some a

  abbrev pub pick_among : Values → Option GithubAddress
  pick_among entries =
      first_chosen (choose (λ e. true_at "primary" e) entries)
        (first_chosen (choose (λ e. true_at "verified" e) entries) (choose (λ _. true) entries))

  unfoldable pub pick_github_address : Value → Option GithubAddress
  pick_github_address (array entries) = pick_among entries
  pick_github_address (object fs) = pick_among (value (object fs) no_values)
  pick_github_address null = none
  pick_github_address (boolean b) = none
  pick_github_address (number n) = none
  pick_github_address (string s) = none

  abbrev pub with_address : OAuthIdentity → Option GithubAddress → OAuthIdentity
  with_address identity none = identity
  with_address identity (some chosen) = record identity {
    email = some chosen.email;
    email_verified = chosen.verified;
  }

  -- A JSON boolean, or the text of one.
  abbrev pub google_verified : Option Value → Bool
  google_verified none = false
  google_verified (some (boolean b)) = b
  google_verified (some (string text)) = same text "true"
  google_verified (some null) = false
  google_verified (some (number n)) = false
  google_verified (some (array vs)) = false
  google_verified (some (object fs)) = false

  unfoldable pub google_identity : Wire → OAuthResponse → Result OAuthIdentity
  unfolding parse_response
  google_identity wire response = do
    parsed ← parse_response wire response
    subject ←
        ok_or (nonempty (text_at "sub" parsed))
          (oauth_provider_error "the Google profile carried no subject")
    ok (record {
      subject = subject;
      email = address (text_at "email" parsed);
      email_verified = google_verified (get "email_verified" parsed);
      display_name = not_blank (text_at "name" parsed);
    })

  -- GitHub is asked twice, the profile and the addresses.
  unfoldable pub fetch_identity : Wire → String → OAuthProvider → String → Result OAuthIdentity
  unfolding github_identity google_identity pick_github_address parse_response github_request
      google_request
  fetch_identity wire version github token = do
    profile ← wire.send (github_request version "/user" token)
    identity ← github_identity wire profile
    emails ← wire.send (github_request version "/user/emails" token)
    body ← parse_response wire emails
    ok (with_address identity (pick_github_address body))
  fetch_identity wire version google token = do
    profile ← wire.send (google_request token)
    google_identity wire profile
