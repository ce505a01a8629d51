-- ===== src/Auth/Validation.antt =====
-- backend/crates/auth/src/validation.rs: the rules for what people type when they register, sign in
-- or recover an account. `str::to_lowercase` goes by Unicode's tables and enters as `to_lowercase`.
pub mod Format
pub mod Accepted
pub mod Tests
use jiuyue.Base.{text_key, nat_key}
use jiuyue.Base.{
  ltb, leb, ◌==◌, if◌then◌else◌, text_key, nat_key, length, all, any, is_empty, first, ℕ, ◌+◌, ◌-◌,
  ◌/◌, String, Bool, false, not, ◌&&◌, ◌||◌, Option, none, some, List, [], ◌∷◌, ◌++◌,
}
use jiuyue.Chat.Ident.{codes}
use jiuyue.Chat.Text.{is_whitespace, is_empty_text, trim_start, trim_end}
use jiuyue.Contract.{
  RegisterRequest, LoginRequest, ForgotPasswordRequest, ResendVerificationRequest,
  ResetPasswordRequest, CompleteOAuthSignInRequest, FieldError, FieldErrorCode, required,
  invalid_format, too_short, too_long, weak,
}

abbrev pub username_min_chars : ℕ
username_min_chars = 3

abbrev pub username_max_chars : ℕ
username_max_chars = 32

abbrev pub password_min_chars : ℕ
password_min_chars = 8

abbrev pub password_max_chars : ℕ
password_max_chars = 128

abbrev pub email_max_chars : ℕ
email_max_chars = 254

abbrev pub display_name_max_chars : ℕ
display_name_max_chars = 64

-- `s.chars().count()`.
abbrev pub count : String → ℕ
count s = length (codes s)

abbrev pub trim : String → String
trim s = trim_start (trim_end s)

abbrev pub normalize_email : (String → String) → String → String
normalize_email to_lowercase raw = to_lowercase (trim raw)

abbrev pub normalize_username : (String → String) → String → String
normalize_username to_lowercase raw = to_lowercase (trim raw)

unfoldable pub display_name : Option String → String → String
display_name none username = username
display_name (some requested) username =
    let value = trim requested in if not (is_empty_text value) then value else username

-- A character in front of the first piece.
abbrev pub push_front : ℕ → List (List ℕ) → List (List ℕ)
push_front c [] = (c ∷ []) ∷ []
push_front c (piece ∷ pieces) = (c ∷ piece) ∷ pieces

-- `str::split` by one character.
unfoldable pub split : ℕ → List ℕ → List (List ℕ)
split separator [] = [] ∷ []
split separator (c ∷ cs) =
    let rest = split separator cs in if c == separator then [] ∷ rest else push_front c rest

abbrev pub contains : ℕ → List ℕ → Bool
contains c cs = any (λ d. d == c) cs

-- The two sides of the only `@`: the pattern `(Some(local), Some(domain), None)`.
abbrev pub valid_parts : List (List ℕ) → Bool
valid_parts (local ∷ domain ∷ []) =
    not (is_empty local || (is_empty domain || not (contains b'.' domain)))
    && not (any is_empty (split b'.' domain))
valid_parts [] = false
valid_parts (part ∷ []) = false
valid_parts (part ∷ part' ∷ part'' ∷ parts) = false

unfoldable pub is_valid_email : String → Bool
is_valid_email email =
    if is_empty_text email || ltb email_max_chars (count email)
    then false
    else (if any is_whitespace (codes email) then false else valid_parts (split b'@' (codes email)))

abbrev pub is_ascii_lowercase : ℕ → Bool
is_ascii_lowercase c = leb b'a' c && leb c b'z'

abbrev pub is_ascii_digit : ℕ → Bool
is_ascii_digit c = leb b'0' c && leb c b'9'

abbrev pub is_ascii_alphabetic : ℕ → Bool
is_ascii_alphabetic c = is_ascii_lowercase c || (leb b'A' c && leb c b'Z')

unfoldable pub is_valid_username : String → Bool
is_valid_username username =
    (leb username_min_chars (count username) && leb (count username) username_max_chars)
    && all (λ c. is_ascii_lowercase c || (is_ascii_digit c || (c == b'_'))) (codes username)

unfoldable pub is_strong_password : String → Bool
is_strong_password password =
    if not (leb password_min_chars (count password) && leb (count password) password_max_chars)
    then false
    else any is_ascii_alphabetic (codes password) && any is_ascii_digit (codes password)

abbrev pub problem : String → FieldErrorCode → String → FieldError
problem field code message = record { field = field; code = code; message = message }

unfoldable pub check_username : String → Option FieldError
check_username username =
    if is_empty_text username
    then some (problem "username" required "请输入用户名")
    else (if ltb (count username) username_min_chars
        then some (problem "username" too_short "用户名至少 3 个字符")
        else (if ltb username_max_chars (count username)
            then some (problem "username" too_long "用户名最多 32 个字符")
            else (if not (is_valid_username username)
                then some (problem "username" invalid_format "用户名只能包含小写字母、数字和下划线")
                else none)))

unfoldable pub check_email : String → Option FieldError
check_email email =
    if is_empty_text email
    then some (problem "email" required "请输入邮箱")
    else (if not (is_valid_email email)
        then some (problem "email" invalid_format "邮箱格式不正确")
        else none)

unfoldable pub check_password : String → Option FieldError
check_password password =
    if is_empty_text password
    then some (problem "password" required "请输入密码")
    else (if ltb (count password) password_min_chars
        then some (problem "password" too_short "密码至少 8 个字符")
        else (if ltb password_max_chars (count password)
            then some (problem "password" too_long "密码最多 128 个字符")
            else (if not (is_strong_password password)
                then some (problem "password" weak "密码需同时包含字母和数字")
                else none)))

unfoldable pub check_display_name : String → Option FieldError
check_display_name display_name =
    let trimmed = trim display_name in
    if is_empty_text trimmed
    then none
    else (if ltb display_name_max_chars (count trimmed)
        then some (problem "display_name" too_long "昵称最多 64 个字符")
        else none)

abbrev pub push : List FieldError → Option FieldError → List FieldError
push errors none = errors
push errors (some e) = errors ++ e ∷ []

-- `if let Some(requested) = request.display_name.as_deref()`.
abbrev pub push_display_name : List FieldError → Option String → List FieldError
push_display_name errors none = errors
push_display_name errors (some requested) = push errors (check_display_name requested)

module _ (to_lowercase : String → String) where
  unfoldable pub validate_registration : RegisterRequest → List FieldError
  validate_registration request =
      let e1 = push [] (check_username (normalize_username to_lowercase request.username)) in
      let e2 = push e1 (check_email (normalize_email to_lowercase request.email)) in
      let e3 = push e2 (check_password request.password) in
      push_display_name e3 request.display_name

  unfoldable pub validate_login : LoginRequest → List FieldError
  validate_login request =
      let errors = push [] (check_email (normalize_email to_lowercase request.email)) in
      if is_empty_text request.password
      then errors ++ problem "password" required "请输入密码" ∷ []
      else errors

  unfoldable pub validate_forgot_password : ForgotPasswordRequest → List FieldError
  validate_forgot_password request =
      push [] (check_email (normalize_email to_lowercase request.email))

  unfoldable pub validate_resend_verification : ResendVerificationRequest → List FieldError
  validate_resend_verification request =
      push [] (check_email (normalize_email to_lowercase request.email))

  unfoldable pub validate_username_choice : CompleteOAuthSignInRequest → List FieldError
  validate_username_choice request =
      push_display_name
        (push [] (check_username (normalize_username to_lowercase request.username)))
        request.display_name

unfoldable pub validate_password_reset : ResetPasswordRequest → List FieldError
validate_password_reset request =
    let errors =
      if is_empty_text (trim request.token)
      then problem "token" required "重置链接不完整，请重新打开邮件中的链接" ∷ []
      else [] in
    push errors (check_password request.password)
