-- ===== src/Chat/Ident.antt =====
-- backend/crates/chat/src/service.rs: the shape of an id, and page sizes.
use jiuyue.Base.{
  leb, ◌==◌, if◌then◌else◌, all, ℕ, ◌-◌, String, Bool, not, ◌&&◌, ◌||◌, Option, none, some, List,
  [], ◌∷◌,
}
use jiuyue.Base.Int.{ℤ, pos, ltb_ℤ}
use Prim.Native.String.{len}
use Prim.Native.Char.{code}

-- `str::chars`, as code points.
abbrev pub codes : String → List ℕ
codes String.[] = []
codes (String.◌∷◌ c s) = code c ∷ codes s

abbrev is_ascii_lowercase : ℕ → Bool
is_ascii_lowercase c = leb b'a' c && leb c b'z'

abbrev is_ascii_alphanumeric : ℕ → Bool
is_ascii_alphanumeric c =
    (leb b'0' c && leb c b'9') || ((leb b'A' c && leb c b'Z') || is_ascii_lowercase c)

abbrev to_ascii_uppercase : ℕ → ℕ
to_ascii_uppercase c = if is_ascii_lowercase c then c - 32 else c

-- Crockford's alphabet leaves out I, L, O and U, in either case.
unfoldable pub is_crockford : ℕ → Bool
is_crockford c =
    is_ascii_alphanumeric c
    && not (
        let u = to_ascii_uppercase c in
        (u == b'I') || ((u == b'L') || ((u == b'O') || (u == b'U'))))

-- `value.len()` counts bytes.
unfoldable pub is_ulid : String → Bool
unfolding is_crockford
is_ulid value = (len value == 26) && all is_crockford (codes value)

abbrev pub default_message_page_size : ℤ
default_message_page_size = pos 50

abbrev pub max_message_page_size : ℤ
max_message_page_size = pos 100

abbrev clamp_ℤ : ℤ → ℤ → ℤ → ℤ
clamp_ℤ x low high = if ltb_ℤ x low then low else if ltb_ℤ high x then high else x

abbrev or_else : Option ℤ → ℤ → ℤ
or_else none d = d
or_else (some x) d = x

unfoldable pub page_size : Option ℤ → ℤ
page_size requested =
    clamp_ℤ (or_else requested default_message_page_size) (pos 1) max_message_page_size
