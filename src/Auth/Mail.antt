-- ===== src/Auth/Mail.antt =====
-- backend/crates/auth/src/links.rs and mailer.rs: the two emails, and the links they carry.
use jiuyue.Base.{ltb, leb, ◌==◌, if◌then◌else◌, ℕ, zero, suc, ◌/◌, ◌%◌, String, true, false, ◌&&◌}
use jiuyue.Base.Word.{as_secs}
use Prim.Native.String.{◌++◌}
use Prim.Native.Char.{code}
use jiuyue.Chat.Text.{is_empty_text}
use jiuyue.Auth.Validation.{trim}
use jiuyue.Auth.Store.{UserRow}

pub record OutgoingMessage : Type 0 where
  pub to : String
  pub subject : String
  pub text : String

abbrev pub product_name : String
product_name = "jiuyue · 九月"

abbrev pub verify_email_path : String
verify_email_path = "/verify-email"

abbrev pub reset_password_path : String
reset_password_path = "/reset-password"

-- `trim_end_matches('/')`.
unfoldable pub trim_end_slashes : String → String
trim_end_slashes String.[] = String.[]
trim_end_slashes (String.◌∷◌ c s) =
    let rest = trim_end_slashes s in
    if (code c == b'/') && is_empty_text rest then String.[] else String.◌∷◌ c rest

unfoldable pub verification_url : String → String → String
unfolding trim_end_slashes
verification_url base_url token =
    trim_end_slashes base_url ++ (verify_email_path ++ ("?token=" ++ token))

unfoldable pub reset_url : String → String → String
unfolding trim_end_slashes
reset_url base_url token =
    trim_end_slashes base_url ++ (reset_password_path ++ ("?token=" ++ token))

abbrev digit : ℕ → String
digit zero = "0"
digit (suc zero) = "1"
digit (suc (suc zero)) = "2"
digit (suc (suc (suc zero))) = "3"
digit (suc (suc (suc (suc zero)))) = "4"
digit (suc (suc (suc (suc (suc zero))))) = "5"
digit (suc (suc (suc (suc (suc (suc zero)))))) = "6"
digit (suc (suc (suc (suc (suc (suc (suc zero))))))) = "7"
digit (suc (suc (suc (suc (suc (suc (suc (suc zero)))))))) = "8"
digit (suc (suc (suc (suc (suc (suc (suc (suc (suc n))))))))) = "9"

decimal_loop : ℕ → ℕ → String
decimal_loop zero n = ""
decimal_loop (suc fuel) n = elim (ltb n 10) [
  | true ↦ digit n
  | false ↦ decimal_loop fuel (n / 10) ++ digit (n % 10)
]

-- `Display` of a `u64`, which has twenty digits at most.
unfoldable pub decimal : ℕ → String
unfolding decimal_loop
decimal n = decimal_loop 20 n

-- A duration is in nanoseconds.
unfoldable pub human_ttl : ℕ → String
unfolding decimal
human_ttl ttl =
    let seconds = as_secs ttl in
    if leb 3600 seconds && (seconds % 3600 == 0)
    then decimal (seconds / 3600) ++ " 小时"
    else (if leb 60 seconds && (seconds % 60 == 0)
        then decimal (seconds / 60) ++ " 分钟"
        else decimal seconds ++ " 秒")

-- The name that a message greets the User by.
unfoldable pub greeting : UserRow → String
greeting user =
    let name = trim user.display_name in if is_empty_text name then user.username else name

unfoldable pub verification_message : UserRow → String → String → ℕ → OutgoingMessage
unfolding verification_url human_ttl greeting
verification_message user base_url token ttl = record {
  to = user.email;
  subject = "验证你的邮箱，完成 " ++ (product_name ++ " 注册");
  text =
      "你好，"
      ++ (greeting user
          ++ ("：\n\n感谢注册 "
              ++ (product_name
                  ++ ("。请点击下面的链接验证你的邮箱地址，完成账号激活：\n\n"
                      ++ (verification_url base_url token
                          ++ ("\n\n链接在 "
                              ++ (human_ttl ttl
                                  ++ (" 内有效，并且只能使用一次。\n如果这不是你本人的操作，忽略这封邮件即可，不会有任何影响。\n\n—— "
                                      ++ (product_name ++ "\n")))))))));
}

unfoldable pub reset_message : UserRow → String → String → ℕ → OutgoingMessage
unfolding reset_url human_ttl greeting
reset_message user base_url token ttl = record {
  to = user.email;
  subject = "重置你的 " ++ (product_name ++ " 密码");
  text =
      "你好，"
      ++ (greeting user
          ++ ("：\n\n我们收到了重置这个账号密码的请求。点击下面的链接设置一个新密码：\n\n"
              ++ (reset_url base_url token
                  ++ ("\n\n链接在 "
                      ++ (human_ttl ttl
                          ++ (" 内有效，并且只能使用一次。为安全起见，重置成功后所有设备都需要重新登录。\n如果这不是你本人的操作，可以忽略这封邮件，你的密码不会改变。\n\n—— "
                              ++ (product_name ++ "\n")))))));
}
