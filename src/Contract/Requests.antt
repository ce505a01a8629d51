-- ===== src/Contract/Requests.antt =====
-- backend/crates/contract/src/auth.rs: what a client sends to register, to sign in and to recover
-- an account.
use jiuyue.Base.{String, Option}

pub record RegisterRequest : Type 0 where
  pub username : String
  pub email : String
  pub password : String
  pub display_name : Option String

pub record LoginRequest : Type 0 where
  pub email : String
  pub password : String

pub record ForgotPasswordRequest : Type 0 where
  pub email : String

pub record ResendVerificationRequest : Type 0 where
  pub email : String

pub record ResetPasswordRequest : Type 0 where
  pub token : String
  pub password : String

pub record CompleteOAuthSignInRequest : Type 0 where
  pub username : String
  pub display_name : Option String

pub data OAuthProvider : Type 0 where
  github google : OAuthProvider
