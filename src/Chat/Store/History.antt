-- ===== src/Chat/Store/History.antt =====
-- What a page of history holds, in Sequence Numbers, when the Conversation is numbered without a
-- gap.
use jiuyue.Base.{
  ltb, Bool-cases, length, drop, select, ℕ, suc, ◌+◌, ◌-◌, min, String, ◌≡◌, refl, ap, ◌∙◌, inl,
  inr, true, ◌&&◌, Option, none, some, List, [], ◌∷◌, arith, max, take,
}
use jiuyue.Base.Int.{ℤ, pos, pos_part, ltb_ℤ}
use jiuyue.Chat.Store.{MessageRow, Db, same}
use jiuyue.Chat.Store.Numbering.{numbers, newest, IsValid}
use jiuyue.Chat.Store.Pages.{
  newest_of, oldest_of, is_before, matching, list_message_page, list_message_page_after,
}
use jiuyue.Chat.Store.Paging.{
  range, seqs, length-range, up_to-range, range_eq, drop-range, take-range, select_before,
  select_after, seqs-order_by_seq, length-seqs, seqs-drop, seqs-take, seqs-select,
}

-- The last `limit + 1` of a run of rows, less the first one if there are that many.
newest_page :
    (rows : List MessageRow) (count limit : ℕ)
    → seqs rows ≡ range 1 count
    → (length (newest_of (limit + 1) rows) ≡ min count (limit + 1))
      × (seqs (newest_of (limit + 1) rows)
          ≡ range (suc (count - (limit + 1))) (min count (limit + 1)))
newest_page rows count limit h =
    let len : length rows ≡ count = length-seqs rows ∙ ap length h ∙ length-range 1 count in
    let run : seqs (newest_of (limit + 1) rows)
        ≡ range (suc (count - (limit + 1))) (min count (limit + 1)) =
      seqs-drop (length rows - (limit + 1)) rows
      ∙ ap (drop (length rows - (limit + 1))) h
      ∙ drop-range (length rows - (limit + 1)) 1 count
      ∙ range_eq (1 + (length rows - (limit + 1))) (suc (count - (limit + 1)))
          (count - (length rows - (limit + 1))) (min count (limit + 1)) (omega (arith, len))
          (omega (arith, len)) in
    (
      length-seqs (newest_of (limit + 1) rows)
          ∙ ap length run
          ∙ length-range (suc (count - (limit + 1))) (min count (limit + 1)),
      run,
    )

-- How many of the Messages of a Conversation lie before a cursor.
abbrev pub count_before : ℕ → Option ℤ → ℕ
count_before n none = n
count_before n (some cursor) = min n (pos_part cursor - 1)

numbered : (db : Db) (id : String) → IsValid db → numbers id db.messages ≡ range 1 (newest db id)
numbered db id v = v.numbered id ∙ up_to-range (newest db id)

select_all : (xs : List ℕ) → select (λ n. true) xs ≡ xs
select_all [] = refl
select_all (x ∷ xs) = ap (◌∷◌ x) (select_all xs)

matching_before :
    (db : Db) (id : String) (before : Option ℤ)
    → IsValid db
    → seqs (matching (is_before before) id db.messages)
      ≡ range 1 (count_before (newest db id) before)
matching_before db id none v =
    seqs-order_by_seq 1 (newest db id) (select (λ m. same m.conversation_id id && true) db.messages)
      (seqs-select id (λ n. true) db.messages
        ∙ select_all (numbers id db.messages)
        ∙ numbered db id v)
matching_before db id (some cursor) v =
    seqs-order_by_seq 1 (min (newest db id) (pos_part cursor - 1))
      (select (λ m. same m.conversation_id id && ltb_ℤ (pos m.seq) cursor) db.messages)
      (seqs-select id (λ n. ltb_ℤ (pos n) cursor) db.messages
        ∙ ap (select (λ n. ltb_ℤ (pos n) cursor)) (numbered db id v)
        ∙ select_before cursor 1 (newest db id))

-- A page before a cursor holds the `limit` Messages just before it, all of them if there are fewer,
-- oldest first, and says that there is more exactly when there is an older one.
pub list_message_page-range :
    (db : Db) (id : String) (before : Option ℤ) (limit : ℕ)
    → IsValid db
    → (seqs (list_message_page db id before limit).0
        ≡ range
            (suc (count_before (newest db id) before - limit))
            (min (count_before (newest db id) before) limit))
      × ((list_message_page db id before limit).1 ≡ ltb limit (count_before (newest db id) before))
unfolding list_message_page
list_message_page-range db id before limit v =
    let count = count_before (newest db id) before in
    let rows = matching (is_before before) id db.messages in
    let page = newest_of (limit + 1) rows in
    let (len, run) = newest_page rows count limit (matching_before db id before v) in
    (
      elim (Bool-cases (ltb limit (length page))) [
        | inl more ↦
            let cut : seqs (drop 1 page) ≡ range (suc (count - limit)) (min count limit) =
              seqs-drop 1 page
              ∙ ap (drop 1) run
              ∙ drop-range 1 (suc (count - (limit + 1))) (min count (limit + 1))
              ∙ range_eq (suc (count - (limit + 1)) + 1) (suc (count - limit))
                  (min count (limit + 1) - 1) (min count limit) (ground (arith, more, len))
                  (ground (arith, more, len)) in
            ground (arith, more, cut)
        | inr last_page ↦
            let whole : seqs page ≡ range (suc (count - limit)) (min count limit) =
              run
              ∙ range_eq (suc (count - (limit + 1))) (suc (count - limit)) (min count (limit + 1))
                  (min count limit) (ground (arith, last_page, len))
                  (ground (arith, last_page, len)) in
            ground (arith, last_page, whole)
      ],
      ground (arith, len),
    )

matching_after :
    (db : Db) (id : String) (after : ℤ)
    → IsValid db
    → seqs (matching (λ m. ltb_ℤ after (pos m.seq)) id db.messages)
      ≡ range (suc (pos_part after)) (newest db id - pos_part after)
matching_after db id after v =
    seqs-order_by_seq (suc (pos_part after)) (newest db id - pos_part after)
      (select (λ m. same m.conversation_id id && ltb_ℤ after (pos m.seq)) db.messages)
      (seqs-select id (λ n. ltb_ℤ after (pos n)) db.messages
        ∙ ap (select (λ n. ltb_ℤ after (pos n))) (numbered db id v)
        ∙ select_after after 1 (newest db id) (omega arith)
        ∙ range_eq (max 1 (suc (pos_part after))) (suc (pos_part after))
            (newest db id - (suc (pos_part after) - 1)) (newest db id - pos_part after)
            (omega arith) (omega arith))

oldest_page :
    (rows : List MessageRow) (start count n : ℕ)
    → seqs rows ≡ range start count
    → (length (take n rows) ≡ min n count) × (seqs (take n rows) ≡ range start (min n count))
oldest_page rows start count n h =
    let run = seqs-take n rows ∙ ap (take n) h ∙ take-range n start count in
    (length-seqs (take n rows) ∙ ap length run ∙ length-range start (min n count), run)

-- A page after a cursor holds the `limit` Messages just after it, all of them if there are fewer,
-- oldest first, and says that there is more exactly when there is a newer one.
pub list_message_page_after-range :
    (db : Db) (id : String) (after : ℤ) (limit : ℕ)
    → IsValid db
    → (seqs (list_message_page_after db id after limit).0
        ≡ range (suc (pos_part after)) (min (newest db id - pos_part after) limit))
      × ((list_message_page_after db id after limit).1 ≡ ltb limit (newest db id - pos_part after))
unfolding list_message_page_after
list_message_page_after-range db id after limit v =
    let count = newest db id - pos_part after in
    let rows = matching (λ m. ltb_ℤ after (pos m.seq)) id db.messages in
    let page = oldest_of (limit + 1) rows in
    let (len, run) =
      oldest_page rows (suc (pos_part after)) count (limit + 1) (matching_after db id after v) in
    (
      elim (Bool-cases (ltb limit (length page))) [
        | inl more ↦
            let cut : seqs (take (length page - 1) page)
                ≡ range (suc (pos_part after)) (min count limit) =
              (oldest_page page (suc (pos_part after)) (min (limit + 1) count) (length page - 1)
                run).1
              ∙ range_eq (suc (pos_part after)) (suc (pos_part after))
                  (min (length page - 1) (min (limit + 1) count)) (min count limit) refl
                  (ground (arith, more, len)) in
            ground (arith, more, cut)
        | inr last_page ↦
            let whole : seqs page ≡ range (suc (pos_part after)) (min count limit) =
              run
              ∙ range_eq (suc (pos_part after)) (suc (pos_part after)) (min (limit + 1) count)
                  (min count limit) refl (ground (arith, last_page, len)) in
            ground (arith, last_page, whole)
      ],
      ground (arith, len),
    )
