-- ===== src/Auth/Validation/Accepted.antt =====
-- What an accepted request is known to hold.
use jiuyue.Base.{text_key, nat_key}
use jiuyue.Base.{
  leb, is_some, text_key, nat_key, is_empty, ◌≤◌, String, ◌≡◌, refl, sym, ◌∙◌, Bool, true, false,
  not, ◌&&◌, Option, none, some, List, [], ◌∷◌, arith,
}
use jiuyue.Chat.Text.{is_empty_text}
use jiuyue.Contract.{RegisterRequest, FieldError}
use jiuyue.Auth.Validation.{
  count, trim, normalize_email, normalize_username, display_name, display_name_max_chars,
  is_valid_email, is_valid_username, is_strong_password, check_username, check_email,
  check_password, check_display_name, push, push_display_name, validate_registration,
}

count_empty : (s : String) → is_empty_text s ≡ true → count s ≡ 0
count_empty String.[] h = refl
count_empty (String.◌∷◌ c s) h = ground arith

count_nonempty : (s : String) → is_empty_text s ≡ false → 1 ≤ count s
count_nonempty String.[] h = ground arith
count_nonempty (String.◌∷◌ c s) h = omega arith

is_some-check_username : (s : String) → is_some (check_username s) ≡ not (is_valid_username s)
unfolding check_username is_valid_username
is_some-check_username s = ground (arith, count_empty s)

is_some-check_email : (s : String) → is_some (check_email s) ≡ not (is_valid_email s)
unfolding check_email is_valid_email
is_some-check_email s = ground (arith, count_empty s)

is_some-check_password : (s : String) → is_some (check_password s) ≡ not (is_strong_password s)
unfolding check_password is_strong_password
is_some-check_password s = ground (arith, count_empty s)

is_empty-push :
    (es : List FieldError) (o : Option FieldError)
    → is_empty (push es o) ≡ (is_empty es && not (is_some o))
is_empty-push es none = ground arith
is_empty-push [] (some e) = refl
is_empty-push (f ∷ es) (some e) = refl

abbrev pub fits_display_name : Option String → Bool
fits_display_name none = true
fits_display_name (some requested) = leb (count (trim requested)) display_name_max_chars

is_empty-push_display_name :
    (es : List FieldError) (o : Option String)
    → is_empty (push_display_name es o) ≡ (is_empty es && fits_display_name o)
unfolding check_display_name
is_empty-push_display_name es none = ground arith
is_empty-push_display_name es (some requested) =
    ground (arith, is_empty-push es (check_display_name requested), count_empty (trim requested))

-- A registration has no problems exactly when the normalised username and email have the accepted
-- form, the password is strong and the display name, if there is one, is short enough without the
-- blanks around it.
validate_registration-accepts :
    (to_lowercase : String → String) (request : RegisterRequest)
    → is_empty (validate_registration to_lowercase request) ≡ (
        is_valid_username (normalize_username to_lowercase request.username)
        && (is_valid_email (normalize_email to_lowercase request.email)
            && (is_strong_password request.password && fits_display_name request.display_name)))
unfolding validate_registration
validate_registration-accepts to_lowercase request =
    let username = normalize_username to_lowercase request.username in
    let email = normalize_email to_lowercase request.email in
    let e1 = push [] (check_username username) in
    let e2 = push e1 (check_email email) in
    is_empty-push_display_name (push e2 (check_password request.password)) request.display_name
    ∙ ground (
      arith,
      is_empty-push e2 (check_password request.password),
      is_empty-push e1 (check_email email),
      is_empty-push [] (check_username username),
      is_some-check_username username,
      is_some-check_email email,
      is_some-check_password request.password,
    )

stored_name :
    (o : Option String) (username : String)
    → is_valid_username username ≡ true
    → fits_display_name o ≡ true
    → (1 ≤ count (display_name o username))
      × (count (display_name o username) ≤ display_name_max_chars)
unfolding display_name is_valid_username
stored_name none username v f = ground arith
stored_name (some requested) username v f = ground (arith, count_nonempty (trim requested))

-- The display name that is stored for an accepted registration has one to 64 characters, as the
-- table `users` demands, whatever was asked for.
pub display_name-bounds :
    (to_lowercase : String → String) (request : RegisterRequest)
    → is_empty (validate_registration to_lowercase request) ≡ true
    → (1
        ≤ count
            (display_name request.display_name (normalize_username to_lowercase request.username)))
      × (count
            (display_name request.display_name (normalize_username to_lowercase request.username))
          ≤ display_name_max_chars)
display_name-bounds to_lowercase request h =
    let accepted = sym (validate_registration-accepts to_lowercase request) ∙ h in
    stored_name request.display_name (normalize_username to_lowercase request.username)
      (ground arith) (ground arith)
