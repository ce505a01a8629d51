-- ===== src/Auth/OAuth/Json.antt =====
-- The values of `serde_json`, as far as backend/crates/auth/src/oauth/client.rs reads them. A number
-- is held as the text that it prints.
use jiuyue.Base.{text_key, nat_key, if◌then◌else◌, same, String, Bool, false, Option, none, some}

mutual
  pub data Value : Type 0 where
    null : Value
    boolean : Bool → Value
    number : String → Value
    string : String → Value
    array : Values → Value
    object : Fields → Value

  pub data Values : Type 0 where
    no_values : Values
    value : Value → Values → Values

  pub data Fields : Type 0 where
    no_fields : Fields
    field : String → Value → Fields → Fields

abbrev pub find_field : String → Fields → Option Value
find_field key no_fields = none
find_field key (field k v fs) = let rest = find_field key fs in if same k key then some v else rest

-- `Value::get` with a key.
abbrev pub get : String → Value → Option Value
get key (object fs) = find_field key fs
get key null = none
get key (boolean b) = none
get key (number n) = none
get key (string s) = none
get key (array vs) = none

abbrev pub as_text : Value → Option String
as_text (string s) = some s
as_text null = none
as_text (boolean b) = none
as_text (number n) = none
as_text (array vs) = none
as_text (object fs) = none

abbrev pub is_true : Value → Bool
is_true (boolean b) = b
is_true null = false
is_true (string s) = false
is_true (number n) = false
is_true (array vs) = false
is_true (object fs) = false

abbrev pub and_then : Option Value → (Value → Option String) → Option String
and_then none f = none
and_then (some v) f = f v

abbrev pub holds : Option Value → (Value → Bool) → Bool
holds none f = false
holds (some v) f = f v

abbrev pub text_at : String → Value → Option String
text_at key v = and_then (get key v) as_text

-- `get(key).and_then(as_bool) == Some(true)`.
abbrev pub true_at : String → Value → Bool
true_at key v = holds (get key v) is_true
