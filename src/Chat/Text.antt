-- ===== src/Chat/Text.antt =====
-- backend/crates/chat/src/service.rs: how the texts that people type are normalised.
-- `str::to_lowercase` goes by Unicode's tables and enters as `to_lowercase`.
use jiuyue.Base.{
  ltb, leb, ◌==◌, if◌then◌else◌, text_discrete, length, any, ℕ, String, ite, Bool, true, false,
  ◌&&◌, ◌||◌, Option, none, some, List, [], ◌∷◌,
}
use Prim.Native.Char.{code}
use jiuyue.Contract.{too_long}
use jiuyue.Chat.Errors.{Result, ok, err, invalid}
use jiuyue.Chat.Ident.{codes}
use jiuyue.Contract.{max_announcement_chars}

-- `char::is_whitespace`: the code points with the property White_Space.
abbrev pub is_whitespace : ℕ → Bool
is_whitespace c =
    (leb 9 c && leb c 13)
    || (c == 32)
    || (c == 0x85)
    || (c == 0xa0)
    || (c == 0x1680)
    || (leb 0x2000 c && leb c 0x200a)
    || (c == 0x2028)
    || (c == 0x2029)
    || (c == 0x202f)
    || (c == 0x205f)
    || (c == 0x3000)

abbrev pub is_empty_text : String → Bool
is_empty_text String.[] = true
is_empty_text (String.◌∷◌ c s) = false

unfoldable pub trim_start : String → String
trim_start String.[] = String.[]
trim_start (String.◌∷◌ c s) = if is_whitespace (code c) then trim_start s else String.◌∷◌ c s

unfoldable pub trim_end : String → String
trim_end String.[] = String.[]
trim_end (String.◌∷◌ c s) =
    let rest = trim_end s in
    if is_whitespace (code c) && is_empty_text rest then String.[] else String.◌∷◌ c rest

abbrev pub is_in : String → List String → Bool
is_in w us = any (λ u. ite (text_discrete u w) true false) us

-- Blank names and repeats are dropped, the first of each stays.
unfoldable pub distinct_usernames : (String → String) → List String → List String → List String
unfolding trim_start trim_end
distinct_usernames to_lowercase seen [] = []
distinct_usernames to_lowercase seen (u ∷ us) =
    let name = to_lowercase (trim_start (trim_end u)) in
    elim (is_empty_text name || is_in name seen) [
      | true ↦ distinct_usernames to_lowercase seen us
      | false ↦ name ∷ distinct_usernames to_lowercase (name ∷ seen) us
    ]

unfoldable pub normalise_usernames : (String → String) → List String → List String
unfolding distinct_usernames
normalise_usernames to_lowercase input = distinct_usernames to_lowercase [] input

abbrev pub or_empty : Option String → String
or_empty none = ""
or_empty (some text) = text

-- An announcement that is absent or blank is cleared.
unfoldable pub normalise_announcement : Option String → Result (Option String)
unfolding trim_start trim_end
normalise_announcement announcement =
    let trimmed = trim_start (trim_end (or_empty announcement)) in
    if is_empty_text trimmed
    then ok none
    else (if ltb max_announcement_chars (length (codes trimmed))
        then err (invalid "announcement" too_long "群公告最多 2000 个字符")
        else ok (some trimmed))
