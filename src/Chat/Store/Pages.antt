-- ===== src/Chat/Store/Pages.antt =====
-- backend/crates/chat/src/repository.rs: pages of a Conversation's history, in either direction.
use jiuyue.Base.{
  ltb, leb, if◌then◌else◌, length, drop, take, select, ℕ, ◌+◌, ◌-◌, String, Bool, true, not, ◌&&◌,
  Option, none, some, List, [], ◌∷◌,
}
use jiuyue.Base.Int.{ℤ, pos, ltb_ℤ}
use jiuyue.Contract.{ReadReceipt}
use jiuyue.Base.Map.{Map}
use jiuyue.Chat.Store.{MemberKey, Member, MessageRow, Db, same}

-- `ORDER BY seq ASC`.
unfoldable pub insert_by_seq : MessageRow → List MessageRow → List MessageRow
insert_by_seq m [] = m ∷ []
insert_by_seq m (x ∷ xs) = if leb m.seq x.seq then m ∷ x ∷ xs else x ∷ insert_by_seq m xs

unfoldable pub order_by_seq : List MessageRow → List MessageRow
unfolding insert_by_seq
order_by_seq [] = []
order_by_seq (m ∷ ms) = insert_by_seq m (order_by_seq ms)

-- `ORDER BY seq DESC LIMIT n`, turned round again by the outer query.
abbrev pub newest_of : ℕ → List MessageRow → List MessageRow
newest_of n ms = drop (length ms - n) ms

-- `ORDER BY seq ASC LIMIT n`.
abbrev pub oldest_of : ℕ → List MessageRow → List MessageRow
oldest_of n ms = take n ms

abbrev pub is_before : Option ℤ → MessageRow → Bool
is_before none m = true
is_before (some cursor) m = ltb_ℤ (pos m.seq) cursor

-- The inner SELECT of `SELECT_MESSAGE_PAGE_BEFORE` and of `SELECT_MESSAGE_PAGE_LATEST`.
abbrev pub matching : (MessageRow → Bool) → String → List MessageRow → List MessageRow
matching p conversation_id ms =
    order_by_seq (select (λ m. same m.conversation_id conversation_id && p m) ms)

-- `list_message_page`: one row more than the limit is read; it is the oldest and says whether
-- there is more.
unfoldable pub list_message_page : Db → String → Option ℤ → ℕ → List MessageRow × Bool
unfolding order_by_seq
list_message_page db conversation_id before limit =
    let rows = newest_of (limit + 1) (matching (is_before before) conversation_id db.messages) in
    let has_more = ltb limit (length rows) in (if has_more then drop 1 rows else rows, has_more)

-- `list_message_page_after`: here the extra row is the newest.
unfoldable pub list_message_page_after : Db → String → ℤ → ℕ → List MessageRow × Bool
unfolding order_by_seq
list_message_page_after db conversation_id after limit =
    let rows =
      oldest_of (limit + 1) (matching (λ m. ltb_ℤ after (pos m.seq)) conversation_id db.messages) in
    let has_more = ltb limit (length rows) in
    (if has_more then take (length rows - 1) rows else rows, has_more)

abbrev pub receipts_of : String → String → Map MemberKey Member → List ReadReceipt
receipts_of conversation_id exclude [] = []
receipts_of conversation_id exclude ((k, m) ∷ ms) =
    if same k.conversation_id conversation_id && not (same k.user_id exclude)
    then record {
      conversation_id = conversation_id;
      reader_id = k.user_id;
      last_read_seq = pos m.read_receipt_seq;
    }
      ∷ receipts_of conversation_id exclude ms
    else receipts_of conversation_id exclude ms

-- `list_receipts`. The order of two ids as texts is the database's: it enters as `by_user_id`.
unfoldable pub list_receipts :
    (List ReadReceipt → List ReadReceipt) → Db → String → String → List ReadReceipt
list_receipts by_user_id db conversation_id exclude =
    by_user_id (receipts_of conversation_id exclude db.members)
