-- ===== src/Contract/Errors.antt =====
-- backend/crates/contract/src/auth.rs: the error codes and the field problems.
use jiuyue.Base.{String}

pub data ErrorCode : Type 0 where
  validation_failed email_taken username_taken invalid_credentials too_many_attempts : ErrorCode
  locked_out email_not_verified token_expired token_invalid unauthenticated internal : ErrorCode
  unavailable not_found user_not_found not_a_participant forbidden conflict : ErrorCode
  oauth_account_exists : ErrorCode

pub data FieldErrorCode : Type 0 where
  required invalid_format too_short too_long weak taken mismatch : FieldErrorCode

pub record FieldError : Type 0 where
  pub field : String
  pub code : FieldErrorCode
  pub message : String
