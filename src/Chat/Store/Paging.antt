-- ===== src/Chat/Store/Paging.antt =====
-- Runs of Sequence Numbers, and what ordering, selecting and cutting rows does to their numbers.
use jiuyue.Base.{
  length, drop, take, ℕ, zero, suc, ◌+◌, ◌-◌, min, ◌≡◌, refl, ap, subst, ◌∙◌, List, [], ◌∷◌, ◌++◌,
  arith, sym, select, max, Bool-cases, inl, inr, ◌≤◌, String, ◌≤◌, Bool, ◌&&◌, ◌&&◌,
}
-- none
use jiuyue.Chat.Store.{MessageRow, same, ℤ}
use jiuyue.Chat.Store.Numbering.{numbers, up_to}
use jiuyue.Chat.Store.Pages.{insert_by_seq, order_by_seq}
use jiuyue.Base.Int.{ℤ, ltb_ℤ, pos, pos_part, negsuc}

-- `count` numbers from `start` on.
abbrev pub range : ℕ → ℕ → List ℕ
range start zero = []
range start (suc count) = start ∷ range (suc start) count

abbrev pub seqs : List MessageRow → List ℕ
seqs [] = []
seqs (m ∷ ms) = m.seq ∷ seqs ms

pub length-range : (start count : ℕ) → length (range start count) ≡ count
length-range start zero = refl
length-range start (suc count) = ap suc (length-range (suc start) count)

range-append :
    (start count : ℕ) → range start count ++ (start + count) ∷ [] ≡ range start (suc count)
range-append start zero = ap (λ n. n ∷ []) (omega arith)
range-append start (suc count) =
    ap (λ l. start ∷ l)
      (subst (λ n. range (suc start) count ++ n ∷ [] ≡ range (suc start) (suc count)) (omega arith)
        (range-append (suc start) count))

pub up_to-range : (n : ℕ) → up_to n ≡ range 1 n
up_to-range zero = refl
up_to-range (suc n) =
    ap (λ l. l ++ suc n ∷ []) (up_to-range n)
    ∙ subst (λ k. range 1 n ++ k ∷ [] ≡ range 1 (suc n)) (omega arith) (range-append 1 n)

pub range_eq : (a b c d : ℕ) → a ≡ b → c ≡ d → range a c ≡ range b d
range_eq a b c d h k = cc (h, k)

pub range_none : (a b c d : ℕ) → c ≡ 0 → d ≡ 0 → range a c ≡ range b d
range_none a b c d h k = range_eq a a c 0 refl h ∙ range_eq b b 0 d refl (sym k)

pub drop-range : (n start count : ℕ) → drop n (range start count) ≡ range (start + n) (count - n)
drop-range zero start count =
    range_eq start (start + 0) count (count - 0) (omega arith) (omega arith)
drop-range (suc n) start zero = range_none start (start + suc n) 0 (0 - suc n) refl (omega arith)
drop-range (suc n) start (suc count) =
    drop-range n (suc start) count
    ∙ range_eq (suc start + n) (start + suc n) (count - n) (suc count - suc n) (omega arith)
        (omega arith)

pub take-range : (n start count : ℕ) → take n (range start count) ≡ range start (min n count)
take-range zero start count = range_none start start 0 (min 0 count) refl (omega arith)
take-range (suc n) start zero = range_none start start 0 (min (suc n) 0) refl (omega arith)
take-range (suc n) start (suc count) =
    ap (◌∷◌ start) (take-range n (suc start) count)
    ∙ range_eq start start (suc (min n count)) (min (suc n) (suc count)) refl (omega arith)

pub select_before :
    (cursor : ℤ) (start count : ℕ)
    → select (λ n. ltb_ℤ (pos n) cursor) (range start count)
      ≡ range start (min count (pos_part cursor - start))
select_before cursor start zero =
    range_none start start 0 (min 0 (pos_part cursor - start)) refl (omega arith)
select_before (pos c) start (suc count) =
    let rest = select_before (pos c) (suc start) count in
    elim (Bool-cases (ltb_ℤ (pos start) (pos c))) [
      | inl inside ↦ ground (
        arith,
        rest,
        inside,
        range_eq start start (suc (min count (c - suc start))) (min (suc count) (c - start)) refl
            (ground (arith, inside)),
      )
      | inr outside ↦ ground (
        arith,
        rest,
        outside,
        range_none (suc start) start (min count (c - suc start)) (min (suc count) (c - start))
            (ground (arith, outside)) (ground (arith, outside)),
      )
    ]
select_before (negsuc c) start (suc count) = ground (
  arith,
  select_before (negsuc c) (suc start) count,
  range_none (suc start) start (min count (0 - suc start)) (min (suc count) (0 - start))
      (omega arith) (omega arith),
)

pub select_after :
    (after : ℤ) (start count : ℕ)
    → 1 ≤ start
    → select (λ n. ltb_ℤ after (pos n)) (range start count)
      ≡ range (max start (suc (pos_part after))) (count - (suc (pos_part after) - start))
select_after after start zero h =
    range_none start (max start (suc (pos_part after))) 0 (0 - (suc (pos_part after) - start)) refl
      (omega arith)
select_after (pos a) start (suc count) h =
    let rest = select_after (pos a) (suc start) count (omega arith) in
    elim (Bool-cases (ltb_ℤ (pos a) (pos start))) [
      | inl inside ↦ ground (
        arith,
        rest,
        inside,
        range_eq start (max start (suc a)) (suc count) (suc count - (suc a - start))
            (ground (arith, inside)) (ground (arith, inside)),
        range_eq (suc start) (max (suc start) (suc a)) count (count - (suc a - suc start))
            (ground (arith, inside)) (ground (arith, inside)),
      )
      | inr outside ↦ ground (
        arith,
        rest,
        outside,
        range_eq (max (suc start) (suc a)) (max start (suc a)) (count - (suc a - suc start))
            (suc count - (suc a - start)) (ground (arith, outside)) (ground (arith, outside)),
      )
    ]
select_after (negsuc a) start (suc count) h = ground (
  arith,
  select_after (negsuc a) (suc start) count (omega arith),
  range_eq start (max start 1) (suc count) (suc count - (1 - start)) (omega arith) (omega arith),
  range_eq (suc start) (max (suc start) 1) count (count - (1 - suc start)) (omega arith)
      (omega arith),
)

-- Rows whose numbers already run upwards stay as they are.
seqs-insert_by_seq :
    (m : MessageRow) (start count : ℕ) (xs : List MessageRow)
    → seqs xs ≡ range start count
    → suc m.seq ≡ start
    → seqs (insert_by_seq m xs) ≡ m.seq ∷ seqs xs
unfolding insert_by_seq
seqs-insert_by_seq m start count [] h k = refl
seqs-insert_by_seq m start zero (x ∷ xs) h k = cc
seqs-insert_by_seq m start (suc count) (x ∷ xs) h k = ground (arith, h)

pub seqs-order_by_seq :
    (start count : ℕ) (xs : List MessageRow)
    → seqs xs ≡ range start count
    → seqs (order_by_seq xs) ≡ range start count
unfolding order_by_seq
seqs-order_by_seq start count [] h = h
seqs-order_by_seq start zero (x ∷ xs) h = cc
seqs-order_by_seq start (suc count) (x ∷ xs) h =
    let tail : seqs xs ≡ range (suc start) count = cc h in
    let first : x.seq ≡ start = cc h in
    let rest = seqs-order_by_seq (suc start) count xs tail in
    seqs-insert_by_seq x (suc start) count (order_by_seq xs) rest (ap suc first) ∙ cc (first, rest)

pub length-seqs : (xs : List MessageRow) → length xs ≡ length (seqs xs)
length-seqs [] = refl
length-seqs (x ∷ xs) = ap suc (length-seqs xs)

pub seqs-drop : (n : ℕ) (xs : List MessageRow) → seqs (drop n xs) ≡ drop n (seqs xs)
seqs-drop zero xs = refl
seqs-drop (suc n) [] = refl
seqs-drop (suc n) (x ∷ xs) = seqs-drop n xs

pub seqs-take : (n : ℕ) (xs : List MessageRow) → seqs (take n xs) ≡ take n (seqs xs)
seqs-take zero xs = refl
seqs-take (suc n) [] = refl
seqs-take (suc n) (x ∷ xs) = ap (◌∷◌ x.seq) (seqs-take n xs)

-- A test that looks at the number only may be made on the numbers.
pub seqs-select :
    (id : String) (q : ℕ → Bool) (ms : List MessageRow)
    → seqs (select (λ m. same m.conversation_id id && q m.seq) ms) ≡ select q (numbers id ms)
seqs-select id q [] = refl
seqs-select id q (m ∷ ms) = ground (arith, seqs-select id q ms)
