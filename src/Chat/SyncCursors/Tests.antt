-- ===== src/Chat/SyncCursors/Tests.antt =====
-- Saving positions of one Device, two Conversations known.
use jiuyue.Base.{text_discrete, ℕ, String, ◌≡◌, refl, true, false, List, [], ◌∷◌, text_key, nat_key}
use jiuyue.Base.Map.{lookup, insert}
use jiuyue.Base.Int.{ℤ, pos, max_ℤ}
use jiuyue.Contract.{SyncCursor}
use jiuyue.Realtime.Cursor.{new, batch, record_cursor}
use jiuyue.Realtime.Cursor.Laws.{record_all}
use jiuyue.Chat.Ident.{is_ulid}
use jiuyue.Chat.SyncCursors.{
  Tables, CursorKey-discrete, cursor_key, normalise_cursors, save_sync_cursors, is_storable,
}
use jiuyue.Chat.SyncCursors.Rows.{row, seq_at}
use jiuyue.Chat.SyncCursors.Coalesced
use jiuyue.Chat.SyncCursors.Coalesced.{save_each, reports_of}

program : Unit {0}
unfolding save_sync_cursors normalise_cursors is_storable is_ulid lookup insert text_discrete
    CursorKey-discrete record_all record_cursor new batch max_ℤ save_each
program = tt

abbrev first_id : String
first_id = "01JABC1234567890ABCDEFGHJ1"

abbrev second_id : String
second_id = "01JABC1234567890ABCDEFGHJ2"

at : String → ℕ → SyncCursor
at id seq = record { conversation_id = id; last_seq = pos seq }

abbrev tables : Tables
tables = record { sync_cursors = []; conversations = first_id ∷ [] }

abbrev reports : List SyncCursor
reports =
    at first_id 9
    ∷ at second_id 4
    ∷ at first_id 3
    ∷ at "not-a-ulid" 5
    ∷ at first_id 12
    ∷ at first_id 0
    ∷ []

collapse_to_the_highest : normalise_cursors reports ≡ at first_id 12 ∷ at second_id 4 ∷ []
unfolding program at
collapse_to_the_highest = refl

only_known_conversations :
    (save_sync_cursors tables (pos 7) "s" reports).0.sync_cursors
    ≡ (row "s" first_id, record { last_seq = pos 12; updated_at = pos 7 }) ∷ []
unfolding program at
only_known_conversations = refl

a_ulid_is_twenty_six_crockford_characters :
    (is_ulid first_id ≡ true)
    × (is_ulid "01JABC1234567890ABCDEFGHJ" ≡ false)
    × (is_ulid "01JABC1234567890ABCDEFGHI1" ≡ false)
    × (is_ulid "01JABC1234567890ABCDEFGH-1" ≡ false)
unfolding program
a_ulid_is_twenty_six_crockford_characters = (refl, refl, refl, refl)

abbrev timed : List (ℤ × SyncCursor)
timed = (pos 1, at first_id 9) ∷ (pos 2, at second_id 4) ∷ (pos 3, at first_id 3) ∷ []

abbrev coalesced : Tables
coalesced = (save_sync_cursors tables (pos 7) "s" (batch (record_all new (reports_of timed)))).0

save-coalesced_example :
    seq_at coalesced.sync_cursors "s" first_id
    ≡ seq_at (save_each tables "s" timed).sync_cursors "s" first_id
save-coalesced_example = Coalesced.save-coalesced tables (pos 7) "s" "s" first_id timed
