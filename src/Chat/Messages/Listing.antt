-- ===== src/Chat/Messages/Listing.antt =====
-- backend/crates/chat/src/service.rs, `list_messages` and `list_receipts`.
use jiuyue.Base.{
  is_some, first, last, ℕ, String, Bool, true, false, not, ◌&&◌, Option, none, some, List, map,
}
use jiuyue.Base.Int.{ℤ, pos, pos_part}
use jiuyue.Contract.{MessageView, ReadReceipt, invalid_format}
use jiuyue.Chat.Errors.{conversation_not_found, Result, ok, require, invalid, ◌>>◌}
use jiuyue.Chat.Ident.{is_ulid, page_size}
use jiuyue.Chat.Store.{MessageRow, Db}
use jiuyue.Chat.Store.Pages
use jiuyue.Chat.Store.Pages.{list_message_page, list_message_page_after}
use jiuyue.Chat.Messages.{message_view, require_participant}

pub record MessagePageQuery : Type 0 where
  pub before : Option ℤ
  pub after : Option ℤ
  pub limit : Option ℤ

pub record MessageList : Type 0 where
  pub messages : List MessageView
  pub next_before : Option ℤ
  pub next_after : Option ℤ
  pub has_more : Bool
  pub read_receipts : List ReadReceipt

-- `rows.first()` or `rows.last()` as the next cursor, if there is more.
abbrev pub cursor_of : Bool → Option MessageRow → Option ℤ
cursor_of false row = none
cursor_of true none = none
cursor_of true (some row) = some (pos row.seq)

unfoldable pub read_page : Db → String → Option ℤ → Option ℤ → ℕ → List ReadReceipt → MessageList
unfolding list_message_page list_message_page_after message_view
read_page db conversation_id before (some after) limit receipts =
    let (rows, has_more) = list_message_page_after db conversation_id after limit in
    record {
      messages = map message_view rows;
      next_before = none;
      next_after = cursor_of has_more (last rows);
      has_more = has_more;
      read_receipts = receipts;
    }
read_page db conversation_id before none limit receipts =
    let (rows, has_more) = list_message_page db conversation_id before limit in
    record {
      messages = map message_view rows;
      next_before = cursor_of has_more (first rows);
      next_after = none;
      has_more = has_more;
      read_receipts = receipts;
    }

-- `page_size` gives at least one, so that the limit is a natural number.
unfoldable pub list_messages :
    (List ReadReceipt → List ReadReceipt)
    → Db
    → String
    → String
    → MessagePageQuery
    → Result MessageList
unfolding is_ulid require_participant page_size read_page Pages.list_receipts
list_messages by_user_id db caller_id conversation_id page = do
  require (is_ulid conversation_id) conversation_not_found
  require (not (is_some page.before && is_some page.after))
      (invalid "after" invalid_format "before 与 after 不能同时使用")
  require_participant db conversation_id caller_id
  ok (
      read_page db conversation_id page.before page.after (pos_part (page_size page.limit))
        (Pages.list_receipts by_user_id db conversation_id caller_id))

unfoldable pub list_receipts :
    (List ReadReceipt → List ReadReceipt) → Db → String → String → Result (List ReadReceipt)
unfolding is_ulid require_participant Pages.list_receipts
list_receipts by_user_id db caller_id conversation_id = do
  require (is_ulid conversation_id) conversation_not_found
  require_participant db conversation_id caller_id
  ok (Pages.list_receipts by_user_id db conversation_id caller_id)
