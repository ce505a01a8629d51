-- ===== src/Auth/OAuth/Tests.antt =====
-- Third-party sign-in at concrete inputs.
use jiuyue.Base.{
  text_discrete, length, same, if◌then◌else◌, ℕ, zero, suc, ◌==◌, String, ◌≡◌, refl, sym, ap, ◌∙◌,
  true, false, not, none, some, List, [], ◌∷◌, arith,
}
use jiuyue.Contract.{google, OAuthCallbackRequest}
use jiuyue.Chat.Ident.{is_ulid, is_crockford, codes}
use jiuyue.Chat.Text.{trim_start, trim_end}
use jiuyue.Auth.Validation.{is_valid_username}
use jiuyue.Auth.Errors.{Result, ok, err, database, oauth_state_invalid}
use jiuyue.Auth.Mail.{trim_end_slashes}
use jiuyue.Auth.Store.{Db}
use jiuyue.Auth.Store.Accounts.{create_session, revoke_session, insert_user}
use jiuyue.Auth.Store.OAuth.{
  StoredOAuthState, insert_state, consume_state, find_user_by_identity, identity_owner,
  link_identity, insert_identity, redirect_allowed, same_provider, zeros,
}
use jiuyue.Auth.Store.Pending.{create_oauth_account, active_pending_session, insert_pending}
use jiuyue.Auth.Store.Statements.{here, next, on_accounts, revokes}
use jiuyue.Auth.Service.Tests.Plain.{plain, alice, home, start as world, first_id, next_id}
use jiuyue.Auth.OAuth.{
  token_endpoint, profile_endpoint, Wire, from_credentials, unconfigured, with_credentials, get,
  require_provider, redirect_uri, authorization_url,
}
use jiuyue.Auth.OAuth.Json.{Value, string, object, field, no_fields}
use jiuyue.Auth.OAuth.Client.{
  OAuthIdentity, token_request, parse_response, access_token, google_identity, fetch_identity,
}
use jiuyue.Auth.OAuth.Handles.{
  Random, random_suffix, generated_username, sanitise, suggested_username,
}
use jiuyue.Auth.OAuth.Handles.Valid.{generated_username-suggested_username}
use jiuyue.Auth.OAuth.SignIn.{
  OAuthService, Draws, is_relative_path, redirect_path_of, begin, start, exchange_identity,
  identity_row, link, open_session, sign_in,
}
use jiuyue.Auth.OAuth.Opening.{prepare, create_attempts, create_account}
use jiuyue.Auth.OAuth.Callback.{resume_onboarding, resolve, redeem, callback}
use jiuyue.Auth.OAuth.Callback.Owner.{Known, callback-Known}
use jiuyue.Auth.OAuth.Callback.Accounts.{Grown, callback-Grown}
use jiuyue.Auth.OAuth.Callback.Once.{callback-once}
use jiuyue.Auth.OAuth.Paths.{redirect_allowed-is_relative_path}

program : Unit {0}
unfolding text_discrete is_ulid is_crockford trim_start trim_end is_valid_username trim_end_slashes
    create_session revoke_session insert_user insert_state consume_state find_user_by_identity
    identity_owner link_identity insert_identity create_oauth_account active_pending_session
    insert_pending from_credentials unconfigured with_credentials get require_provider redirect_uri
    authorization_url token_request parse_response access_token google_identity fetch_identity
    random_suffix generated_username sanitise suggested_username is_relative_path redirect_path_of
    begin start exchange_identity link open_session sign_in prepare create_attempts create_account
    resume_onboarding resolve redeem callback
program = tt

abbrev zeros_of : ℕ → List ℕ
zeros_of zero = []
zeros_of (suc n) = 0 ∷ zeros_of n

length-zeros_of : (n : ℕ) → length (zeros_of n) ≡ n
length-zeros_of zero = refl
length-zeros_of (suc n) = ap suc (length-zeros_of n)

abbrev bytes_of : Result (List ℕ) → List ℕ
bytes_of (err e) = []
bytes_of (ok bytes) = bytes

-- Randomness that is none.
abbrev dull : Random
dull = record {
  fill = λ n. ok (zeros_of n);
  length-fill = λ n bytes e. ap (λ r. length (bytes_of r)) (sym e) ∙ length-zeros_of n;
}

abbrev profile : Value
profile = object (
    field "sub" (string "1001")
      (field "email" (string "bob@example.com") (field "name" (string "Bob B.") no_fields)))

abbrev last_value : List (String × String) → String
last_value [] = ""
last_value (p ∷ []) = p.1
last_value (p ∷ q ∷ ps) = last_value (q ∷ ps)

-- A provider whose bodies are two words, which stand for their JSON. Of a form only the last value
-- is kept.
abbrev fixture : Wire
fixture = record {
  send = λ r. ok (record {
    status = 200;
    body = elim r.endpoint [ token_endpoint ↦ "token" | profile_endpoint ↦ "profile" ];
  });
  form = last_value;
  from_str = λ body.
      if same body "token"
      then some (object (field "access_token" (string "at") no_fields))
      else some profile;
  base64_of_sha256 = λ s. s;
}

abbrev service : OAuthService
service = record {
  crypto = plain;
  wire = fixture;
  to_lowercase = λ s. s;
  version = "0";
  providers = from_credentials (none, none) (some "id", some "secret");
  state_ttl = 600_000_000;
  onboarding_ttl = 86_400_000_000;
  public_base_url = "https://jiuyue.example";
}

abbrev drawn : ℕ → String → Draws
drawn now id = record {
  now = now;
  state_id = id;
  state_token = ok id;
  attempts = λ n. record {
    random = dull;
    user_id = id;
    pending_id = id;
    identity_id = id;
    limited_token = ok id;
  };
  identity_id = id;
  pending_id = id;
  limited_token = ok id;
  session_id = id;
  refresh_token = ok id;
}

abbrev started : Db
started = (start service (drawn 1 first_id) world.db google (some "/chat") none).0

abbrev returned : OAuthCallbackRequest
returned = record { provider = google; code = "c"; state = first_id }

abbrev created : Db
created = (callback service (drawn 2 first_id) started returned home).0

-- The path that the service takes and the table does not: the request ends in an error.
root_is_refused :
    (start service (drawn 1 first_id) world.db google (some "/") none).1 ≡ err database
unfolding program
root_is_refused = refl

abbrev state : StoredOAuthState
state = record {
  provider = google;
  code_verifier_hash = zeros;
  user_id = none;
  redirect_path = some "/chat";
  expires_at = 600_000_001;
}

-- The form for the token ends in the verifier. It is 64 zeros, not the digest that was stored.
zeros_are_sent :
    (token_request fixture
        (get service.providers google)
        service.public_base_url
        "c"
        state.code_verifier_hash
      ≡ ok (record {
        endpoint = token_endpoint;
        url = "https://oauth2.googleapis.com/token";
        form = "0000000000000000000000000000000000000000000000000000000000000000";
        headers = ("Accept", "application/json") ∷ [];
      }))
    × ((consume_state started 2 "#01BRZ3NDEKTSV4RRFFQ69G5FAV").1 ≡ some state)
unfolding program
zeros_are_sent = (refl, refl)

abbrev bob : OAuthIdentity
bob = record {
  subject = "1001";
  email = some "bob@example.com";
  email_verified = false;
  display_name = some "Bob B.";
}

generated_username-suggested_username_example : is_valid_username "bob_baaaaaa" ≡ true
unfolding program
generated_username-suggested_username_example =
    generated_username-suggested_username dull bob google 0 "bob_baaaaaa" refl

redirect_allowed-is_relative_path_example :
    redirect_allowed (some "/chat") ≡ not (length (codes "/chat") == 1)
unfolding program
redirect_allowed-is_relative_path_example = redirect_allowed-is_relative_path "/chat" refl

callback-Grown_example : Grown started created
callback-Grown_example = callback-Grown service (drawn 2 first_id) started returned home

callback-once_example :
    (callback service (drawn 9 next_id) (revoke_session created 7 next_id) returned home).1
    ≡ err oauth_state_invalid
unfolding program
callback-once_example =
    callback-once service (drawn 2 first_id) (drawn 9 next_id) started
      (revoke_session created 7 next_id) returned returned home state refl
      (next here (on_accounts (revokes 7 next_id refl))) (omega arith) refl

-- The identity is bound to an account with another email.
abbrev bound : Db
bound = record started { oauth_identities = identity_row next_id alice.id google bob ∷ [] }

callback-Known_example :
    (found : StoredOAuthState) × (identity : OAuthIdentity) × ((consume_state bound 2
        "#01BRZ3NDEKTSV4RRFFQ69G5FAV").1
      ≡ some found)
    × (same_provider found.provider google ≡ true)
    × (exchange_identity service google found.code_verifier_hash "c" ≡ ok identity)
    × Known bound google identity found alice.id
unfolding program
callback-Known_example =
    callback-Known service (drawn 2 first_id) bound returned home alice first_id first_id
      (some "/chat") refl
