-- ===== src/Contract/Accounts.antt =====
-- backend/crates/contract/src/auth.rs: what the server tells of an account, and the requests and
-- answers of third-party sign-in.
use jiuyue.Base.{String, ℕ, Bool, Option, none, some}
use jiuyue.Contract.Requests.{OAuthProvider, github, google}
use jiuyue.Base.{same, if◌then◌else◌}

pub record UserProfile : Type 0 where
  pub id : String
  pub username : String
  pub email : String
  pub display_name : String
  pub avatar_url : Option String
  pub email_verified : Bool
  pub created_at_ms : ℕ

pub record TokenPair : Type 0 where
  pub access_token : String
  pub refresh_token : String
  pub token_type : String
  pub expires_in : ℕ

pub record AuthSession : Type 0 where
  pub user : UserProfile
  pub tokens : TokenPair

-- The spelling of a provider in the tables, and back.
unfoldable pub provider_text : OAuthProvider → String
provider_text github = "github"
provider_text google = "google"

unfoldable pub provider_of : String → Option OAuthProvider
provider_of value =
    if same value "github" then some github else if same value "google" then some google else none

pub record OAuthCallbackRequest : Type 0 where
  pub provider : OAuthProvider
  pub code : String
  pub state : String

pub record OAuthOnboarding : Type 0 where
  pub limited_token : String
  pub suggested_username : String
  pub email : Option String
  pub redirect_path : Option String

pub record OAuthSession : Type 0 where
  pub user : UserProfile
  pub tokens : TokenPair
  pub redirect_path : Option String

pub record OAuthCallbackResponse : Type 0 where
  pub session : Option OAuthSession
  pub onboarding : Option OAuthOnboarding
