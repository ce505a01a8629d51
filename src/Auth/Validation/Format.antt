-- ===== src/Auth/Validation/Format.antt =====
-- The shape of an email that the rules accept: `split` against the pieces that it takes apart.
use jiuyue.Base.{text_key, nat_key}
use jiuyue.Base.{
  ◌==◌, text_key, nat_key, length, any, is_empty, append-nil, ℕ, ◌≤◌, String, ◌≡◌, refl, sym, ap,
  ◌∙◌, Bool, true, false, not, List, [], ◌∷◌, ◌++◌, arith,
}
use jiuyue.Chat.Ident.{codes}
use jiuyue.Chat.Text.{is_whitespace}
use jiuyue.Auth.Validation.{
  push_front, split, contains, valid_parts, is_valid_email, count, email_max_chars,
}

abbrev join_rest : ℕ → List (List ℕ) → List ℕ
join_rest separator [] = []
join_rest separator (piece ∷ pieces) = separator ∷ (piece ++ join_rest separator pieces)

-- The pieces with the separator between them.
abbrev pub join : ℕ → List (List ℕ) → List ℕ
join separator [] = []
join separator (piece ∷ pieces) = piece ++ join_rest separator pieces

join_rest_nonempty :
    (s : ℕ) (ps : List (List ℕ)) → is_empty ps ≡ false → join_rest s ps ≡ s ∷ join s ps
join_rest_nonempty s [] h = ground arith
join_rest_nonempty s (p ∷ ps) h = refl

join-push_front : (s c : ℕ) (ps : List (List ℕ)) → join s (push_front c ps) ≡ c ∷ join s ps
join-push_front s c [] = refl
join-push_front s c (p ∷ ps) = refl

push_front_nonempty : (c : ℕ) (ps : List (List ℕ)) → is_empty (push_front c ps) ≡ false
push_front_nonempty c [] = refl
push_front_nonempty c (p ∷ ps) = refl

split_nonempty : (s : ℕ) (cs : List ℕ) → is_empty (split s cs) ≡ false
unfolding split
split_nonempty s [] = refl
split_nonempty s (c ∷ cs) = ground (arith, push_front_nonempty c (split s cs))

join-split : (s : ℕ) (cs : List ℕ) → join s (split s cs) ≡ cs
unfolding split
join-split s [] = refl
join-split s (c ∷ cs) = ground (
  arith,
  join-split s cs,
  join_rest_nonempty s (split s cs) (split_nonempty s cs),
  join-push_front s c (split s cs),
)

-- No piece holds the separator.
abbrev free : ℕ → List (List ℕ) → Bool
free s ps = not (any (contains s) ps)

free-push_front :
    (s c : ℕ) (ps : List (List ℕ))
    → (c == s) ≡ false
    → free s ps ≡ true
    → free s (push_front c ps) ≡ true
free-push_front s c [] h k = ground arith
free-push_front s c (p ∷ ps) h k = ground arith

free-split : (s : ℕ) (cs : List ℕ) → free s (split s cs) ≡ true
unfolding split
free-split s [] = refl
free-split s (c ∷ cs) = ground (arith, free-split s cs, free-push_front s c (split s cs))

length-push_front : (c : ℕ) (ps : List (List ℕ)) → length ps ≤ length (push_front c ps)
length-push_front c [] = omega arith
length-push_front c (p ∷ ps) = omega arith

nonempty-length : (ps : List (List ℕ)) → is_empty ps ≡ false → 1 ≤ length ps
nonempty-length [] h = ground arith
nonempty-length (p ∷ ps) h = omega arith

two_pieces : (s : ℕ) (cs : List ℕ) → contains s cs ≡ true → 2 ≤ length (split s cs)
unfolding split
two_pieces s [] h = ground arith
two_pieces s (c ∷ cs) h = ground (
  arith,
  two_pieces s cs,
  nonempty-length (split s cs) (split_nonempty s cs),
  length-push_front c (split s cs),
)

-- One `@` between a local part and a domain of two labels at least, none of them empty or with a
-- dot in it.
pub record EmailShape (cs : List ℕ) : Type 0 where
  pub local : List ℕ
  pub labels : List (List ℕ)
  pub joined : cs ≡ local ++ b'@' ∷ join b'.' labels
  pub local_nonempty : is_empty local ≡ false
  pub local_free : contains b'@' local ≡ false
  pub domain_free : contains b'@' (join b'.' labels) ≡ false
  pub dotted : 2 ≤ length labels
  pub labels_nonempty : any is_empty labels ≡ false
  pub labels_free : any (contains b'.') labels ≡ false

shape_of_parts :
    (ps : List (List ℕ)) (cs : List ℕ)
    → join b'@' ps ≡ cs
    → free b'@' ps ≡ true
    → valid_parts ps ≡ true
    → EmailShape cs
shape_of_parts [] cs j f v = ground arith
shape_of_parts (p ∷ []) cs j f v = ground arith
shape_of_parts (local ∷ domain ∷ []) cs j f v = record {
  local = local;
  labels = split b'.' domain;
  joined = sym j ∙ ap (λ ds. local ++ b'@' ∷ ds) (append-nil domain ∙ sym (join-split b'.' domain));
  local_nonempty = ground arith;
  local_free = ground arith;
  domain_free = rw (join-split b'.' domain) (ground arith);
  dotted = two_pieces b'.' domain (ground arith);
  labels_nonempty = ground arith;
  labels_free = ground (arith, free-split b'.' domain);
}
shape_of_parts (p ∷ q ∷ r ∷ ps) cs j f v = ground arith

-- An email that the rules accept is one `@` between a local part and a domain, which is two or more
-- labels with dots between them and none inside. Neither the local part nor a label is empty, there
-- is no other `@` and no white space, and the whole has at most 254 characters.
pub is_valid_email-EmailShape :
    (email : String)
    → is_valid_email email ≡ true
    → EmailShape (codes email)
      × (any is_whitespace (codes email) ≡ false)
      × (count email ≤ email_max_chars)
unfolding is_valid_email
is_valid_email-EmailShape email h = (
  shape_of_parts (split b'@' (codes email)) (codes email) (join-split b'@' (codes email))
      (free-split b'@' (codes email)) (ground arith),
  ground arith,
  ground arith,
)
