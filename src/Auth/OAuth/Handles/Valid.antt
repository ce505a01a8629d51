-- ===== src/Auth/OAuth/Handles/Valid.antt =====
-- Every handle that is generated has the form of a username.
use jiuyue.Base.{
  text_key, nat_key, ltb, false, Option, none, some, Option-cases, ◌==◌, Bool-cases, length, all,
  last, ℕ, zero, suc, ◌+◌, ◌-◌, ◌%◌, ◌≤◌, ◌<◌, min, String, ◌≡◌, refl, sym, ap, subst, ◌∙◌, inl,
  inr, Bool, true, ◌||◌, List, [], ◌∷◌, arith,
}
use Prim.Native.String.{◌++◌}
use Prim.Native.String.append
use Prim.Native.Char.{Char, code}
use jiuyue.Contract.{OAuthProvider, github, google}
use jiuyue.Chat.Ident.{codes}
use jiuyue.Auth.Validation.{
  count, username_min_chars, username_max_chars, is_ascii_lowercase, is_ascii_digit,
  is_valid_username,
}
use jiuyue.Auth.Errors.{ok, >>=-eq-ok}
use jiuyue.Auth.OAuth.Client.{OAuthIdentity}
use jiuyue.Auth.OAuth.Handles.{
  Random, suffix_digits, max_suffix, nth, letters, suffix_alphabet, suffix_of, random_suffix,
  take_chars, padded, generated_username, is_upper, handle_char, cleaned, trim_start_underscores,
  trim_end_underscores, sanitise, preferred, provider_handle, suggested_username,
}

abbrev in_handle : ℕ → Bool
in_handle c = is_ascii_lowercase c || (is_ascii_digit c || (c == b'_'))

-- A text of the characters of handles.
abbrev is_handle : String → Bool
is_handle s = all in_handle (codes s)

nth-in_handle :
    (n : ℕ) (s : String) → is_handle s ≡ true → n < count s → in_handle (code (nth n s)) ≡ true
nth-in_handle n String.[] h l = absurd (omega (arith, l))
nth-in_handle zero (String.◌∷◌ c s) h l = ground (arith, h)
nth-in_handle (suc n) (String.◌∷◌ c s) h l =
    nth-in_handle n s (ground (arith, h)) (omega (arith, l))

suffix_of-is_handle : (bytes : List ℕ) → is_handle (suffix_of bytes) ≡ true
suffix_of-is_handle [] = refl
suffix_of-is_handle (byte ∷ bytes) =
    rw (nth-in_handle (byte % 36) suffix_alphabet refl (omega arith)) (suffix_of-is_handle bytes)

count-suffix_of : (bytes : List ℕ) → count (suffix_of bytes) ≡ length bytes
count-suffix_of [] = refl
count-suffix_of (byte ∷ bytes) = ap suc (count-suffix_of bytes)

take_chars-is_handle : (n : ℕ) (s : String) → is_handle s ≡ true → is_handle (take_chars n s) ≡ true
take_chars-is_handle zero s h = refl
take_chars-is_handle (suc n) String.[] h = refl
take_chars-is_handle (suc n) (String.◌∷◌ c s) h = ground (arith, h, take_chars-is_handle n s)

count-take_chars-le : (n : ℕ) (s : String) → count (take_chars n s) ≤ n
count-take_chars-le zero s = omega arith
count-take_chars-le (suc n) String.[] = omega arith
count-take_chars-le (suc n) (String.◌∷◌ c s) = omega (arith, count-take_chars-le n s)

append-is_handle :
    (s t : String) → is_handle s ≡ true → is_handle t ≡ true → is_handle (s ++ t) ≡ true
append-is_handle String.[] t h k = ap is_handle (append.nil t) ∙ k
append-is_handle (String.◌∷◌ c s) t h k =
    ap is_handle (append.cons c s t) ∙ ground (arith, h, append-is_handle s t)

count-append : (s t : String) → count (s ++ t) ≡ count s + count t
count-append String.[] t = ap count (append.nil t) ∙ omega arith
count-append (String.◌∷◌ c s) t = ap count (append.cons c s t) ∙ omega (arith, count-append s t)

random_suffix-Suffix :
    (random : Random) (n : ℕ) (s : String)
    → random_suffix random n ≡ ok s
    → (is_handle s ≡ true) × (count s ≡ n)
unfolding random_suffix
random_suffix-Suffix random n s e =
    let (bytes, filled, last) = >>=-eq-ok (random.fill n) _ e in
    let same_text : suffix_of bytes ≡ s = ground (arith, last) in
    (
      ap is_handle (sym same_text) ∙ suffix_of-is_handle bytes,
      ap count (sym same_text) ∙ (count-suffix_of bytes ∙ random.length-fill n bytes filled),
    )

handle_char-in_handle : (c : Char) → in_handle (code (handle_char c)) ≡ true
handle_char-in_handle c = elim (Bool-cases (is_upper (code c))) [
  | inl up ↦ rw up (nth-in_handle (code c - b'A') letters refl (ground (arith, up)))
  | inr other ↦ elim (Bool-cases (in_handle (code c))) [
    | inl fine ↦ rw (other, fine) fine
    | inr odd ↦ rw (other, odd) refl
  ]
]

cleaned-is_handle : (n : ℕ) (s : String) → is_handle (cleaned n s) ≡ true
cleaned-is_handle zero s = refl
cleaned-is_handle (suc n) String.[] = refl
cleaned-is_handle (suc n) (String.◌∷◌ c s) = rw (handle_char-in_handle c) (cleaned-is_handle n s)

trim_start_underscores-is_handle :
    (s : String) → is_handle s ≡ true → is_handle (trim_start_underscores s) ≡ true
trim_start_underscores-is_handle String.[] h = refl
trim_start_underscores-is_handle (String.◌∷◌ c s) h =
    ground (arith, h, trim_start_underscores-is_handle s)

trim_end_underscores-is_handle :
    (s : String) → is_handle s ≡ true → is_handle (trim_end_underscores s) ≡ true
trim_end_underscores-is_handle String.[] h = refl
trim_end_underscores-is_handle (String.◌∷◌ c s) h =
    ground (arith, h, trim_end_underscores-is_handle s)

sanitise-is_handle :
    (value : Option String) (base : String) → sanitise value ≡ some base → is_handle base ≡ true
unfolding sanitise
sanitise-is_handle none base e = ground (arith, e)
sanitise-is_handle (some value) base e =
    let text = cleaned (username_max_chars - suffix_digits) value in
    let fine = trim_end_underscores-is_handle (trim_start_underscores text) (
      trim_start_underscores-is_handle text
        (cleaned-is_handle (username_max_chars - suffix_digits) value)) in
    ground (arith, fine, e)

provider_handle-is_handle : (provider : OAuthProvider) → is_handle (provider_handle provider) ≡ true
provider_handle-is_handle github = refl
provider_handle-is_handle google = refl

suggested_username-is_handle :
    (identity : OAuthIdentity) (provider : OAuthProvider)
    → is_handle (suggested_username identity provider) ≡ true
unfolding suggested_username
suggested_username-is_handle identity provider =
    elim (Option-cases (sanitise (preferred identity))) [
      | inl unusable ↦
          let chosen : suggested_username identity provider ≡ provider_handle provider =
            ground (arith, unusable) in
          ap is_handle chosen ∙ provider_handle-is_handle provider
      | inr (base, kept) ↦
          let chosen : suggested_username identity provider ≡ base = ground (arith, kept) in
          ap is_handle chosen ∙ sanitise-is_handle (preferred identity) base kept
    ]

padded-long :
    (random : Random) (candidate name : String)
    → 3 ≤ count candidate
    → padded random candidate ≡ ok name
    → candidate ≡ name
padded-long random candidate name h e =
    let long : ltb (count candidate) username_min_chars ≡ false = ground (arith, h) in
    ground (arith, long, e)

is_handle-is_valid_username :
    (s : String) → is_handle s ≡ true → 3 ≤ count s → count s ≤ 32 → is_valid_username s ≡ true
unfolding is_valid_username
is_handle-is_valid_username s h low high = ground (arith, h, low, high)

-- Whatever an identity is called, and at any attempt, a handle that is generated is a valid
-- username: it has from 3 to 32 characters, all lowercase letters, digits and underscores.
pub generated_username-suggested_username :
    (random : Random) (identity : OAuthIdentity) (provider : OAuthProvider) (attempt : ℕ)
    (name : String)
    → generated_username random (suggested_username identity provider) attempt ≡ ok name
    → is_valid_username name ≡ true
unfolding generated_username
generated_username-suggested_username random identity provider attempt name e =
    let base = suggested_username identity provider in
    let n = min (suffix_digits + attempt) max_suffix in
    let (suffix, drawn, rest) = >>=-eq-ok (random_suffix random n) _ e in
    let (fine, long) = random_suffix-Suffix random n suffix drawn in
    let room = username_max_chars - count suffix in
    let taken = take_chars room base in
    let short = count-take_chars-le room base in
    let total = count-append taken suffix in
    let whole = padded-long random (taken ++ suffix) name (omega (arith, total, long)) rest in
    let shape =
      append-is_handle taken suffix
        (take_chars-is_handle room base (suggested_username-is_handle identity provider)) fine in
    subst (λ s. is_valid_username s ≡ true) whole
      (is_handle-is_valid_username (taken ++ suffix) shape (omega (arith, total, long))
        (omega (arith, total, long, short)))
