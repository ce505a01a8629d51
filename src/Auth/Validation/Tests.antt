-- ===== src/Auth/Validation/Tests.antt =====
-- The rules on concrete requests.
use jiuyue.Base.{text_key, nat_key}
use jiuyue.Base.{text_key, nat_key, any, ◌≤◌, String, ◌≡◌, refl, true, false, none, some, [], ◌∷◌}
use jiuyue.Chat.Ident.{codes}
use jiuyue.Chat.Text.{is_whitespace, trim_start, trim_end}
use jiuyue.Contract.{RegisterRequest, too_short, invalid_format, weak, required}
use jiuyue.Auth.Validation.{
  count, display_name, display_name_max_chars, email_max_chars, split, is_valid_email,
  is_valid_username, is_strong_password, check_username, check_email, check_password,
  check_display_name, problem, validate_registration, validate_login, validate_forgot_password,
  validate_resend_verification, validate_username_choice, validate_password_reset,
}
use jiuyue.Auth.Validation.Format.{EmailShape, is_valid_email-EmailShape}
use jiuyue.Auth.Validation.Accepted.{display_name-bounds}

program : Unit {0}
unfolding trim_start trim_end display_name split is_valid_email is_valid_username is_strong_password
    check_username check_email check_password check_display_name validate_registration
    validate_login validate_forgot_password validate_resend_verification validate_username_choice
    validate_password_reset
program = tt

abbrev lower : String → String
lower s = s

abbrev alice : RegisterRequest
alice = record {
  username = " alice ";
  email = "alice@example.com";
  password = "secret123";
  display_name = some "  ";
}

abbrev mistyped : RegisterRequest
mistyped = record {
  username = "al";
  email = "alice@example..com";
  password = "secretsecret";
  display_name = none;
}

every_problem_is_reported :
    validate_registration lower mistyped
    ≡ problem "username" too_short "用户名至少 3 个字符"
      ∷ problem "email" invalid_format "邮箱格式不正确"
      ∷ problem "password" weak "密码需同时包含字母和数字"
      ∷ []
unfolding program
every_problem_is_reported = refl

shapes :
    (is_valid_email "a@b.c" ≡ true)
    × (is_valid_email "a@.com" ≡ false)
    × (is_valid_email "a@b." ≡ false)
    × (is_valid_email "a@b@c.d" ≡ false)
    × (is_valid_email "a b@c.d" ≡ false)
unfolding program
shapes = (refl, refl, refl, refl, refl)

a_reset_needs_a_token :
    validate_password_reset (record { token = "  "; password = "secret123" })
    ≡ problem "token" required "重置链接不完整，请重新打开邮件中的链接" ∷ []
unfolding program
a_reset_needs_a_token = refl

sign_in_and_recovery :
    (validate_login lower (record { email = "a@b.c"; password = "" })
      ≡ problem "password" required "请输入密码" ∷ [])
    × (validate_forgot_password lower (record { email = " a@b.c" }) ≡ [])
    × (validate_resend_verification lower (record { email = "" })
        ≡ problem "email" required "请输入邮箱" ∷ [])
    × (validate_username_choice lower (record { username = "bob_1"; display_name = none }) ≡ [])
unfolding program
sign_in_and_recovery = (refl, refl, refl, refl)

is_valid_email-EmailShape_example :
    EmailShape (codes "alice@example.com")
    × (any is_whitespace (codes "alice@example.com") ≡ false)
    × (count "alice@example.com" ≤ email_max_chars)
unfolding program
is_valid_email-EmailShape_example = is_valid_email-EmailShape "alice@example.com" refl

display_name-bounds_example :
    (1 ≤ count (display_name alice.display_name "alice"))
    × (count (display_name alice.display_name "alice") ≤ display_name_max_chars)
unfolding program
display_name-bounds_example = display_name-bounds lower alice refl
