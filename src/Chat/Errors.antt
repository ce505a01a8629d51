-- ===== src/Chat/Errors.antt =====
-- backend/crates/chat/src/error.rs, and the result that every use case returns.
use jiuyue.Base.{String, Bool, true, false, Option, none, some, List, [], ◌∷◌}
use jiuyue.Contract.{
  ErrorCode, validation_failed, user_not_found, not_found, forbidden, conflict,
  internal as internal_code, not_a_participant as not_a_participant_code, FieldError,
  FieldErrorCode,
}

-- The cause that `Database` wraps is dropped.
pub data ChatError : Type 0 where
  validation : List FieldError → ChatError
  no_such_user conversation_not_found not_a_participant : ChatError
  not_permitted : String → ChatError
  not_a_group already_member member_not_found owner_cannot_leave database internal : ChatError

unfoldable pub code : ChatError → ErrorCode
code (validation fields) = validation_failed
code no_such_user = user_not_found
code conversation_not_found = not_found
code not_a_participant = not_a_participant_code
code (not_permitted action) = forbidden
code not_a_group = conflict
code already_member = conflict
code member_not_found = conflict
code owner_cannot_leave = conflict
code database = internal_code
code internal = internal_code

unfoldable pub message : ChatError → String
message (validation fields) = "消息内容不合法"
message no_such_user = "找不到该用户"
message conversation_not_found = "会话不存在"
message not_a_participant = "你不是该会话的参与者"
message (not_permitted action) = "你的权限不允许此操作"
message not_a_group = "该会话不是群聊"
message already_member = "该用户已在群聊中"
message member_not_found = "该用户不是群聊成员"
message owner_cannot_leave = "群主需先转让群聊或解散群聊，才能退出"
message database = "服务器内部错误"
message internal = "服务器内部错误"

unfoldable pub fields : ChatError → List FieldError
fields (validation fs) = fs
fields _ = []

-- `Result<A, ChatError>`.
pub data Result {ℓ} (A : Type ℓ) : Type ℓ where
  err : ChatError → Result A
  ok : A → Result A

-- `Option::ok_or`.
abbrev pub ok_or {ℓ} : {A : Type ℓ} → Option A → ChatError → Result A
ok_or none e = err e
ok_or (some a) e = ok a

-- `if !test { return Err(e) }`.
abbrev pub require : Bool → ChatError → Result (Unit {0})
require false e = err e
require true e = ok tt

-- The `?` operator.
infixl 5 ◌>>=◌ ◌>>◌
abbrev pub ◌>>=◌ {ℓ κ} : {A : Type ℓ} {B : Type κ} → Result A → (A → Result B) → Result B
step >>= rest = elim step [ err e ↦ err e | ok a ↦ rest a ]

abbrev pub ◌>>◌ {κ} : {B : Type κ} → Result (Unit {0}) → Result B → Result B
step >> rest = elim step [ err e ↦ err e | ok _ ↦ rest ]

-- `validation(field, code, message)` of service.rs.
abbrev pub invalid : String → FieldErrorCode → String → ChatError
invalid field code message =
    validation (record { field = field; code = code; message = message } ∷ [])
