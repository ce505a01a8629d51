-- ===== src/Realtime/Cursor.antt =====
-- backend/crates/realtime/src/cursor.rs and the cursor half of session.rs: one connection's
-- coalesced Sync Cursor reports. What the database answers to a flush is an argument.
pub mod Laws
pub mod Tests
use jiuyue.Base.{
  leb, if◌then◌else◌, length, is_empty, ℕ, ◌-◌, ◌/◌, max, String, Bool, Option, none, some, List,
  [], ◌∷◌, text_key, nat_key,
}
use jiuyue.Base.Map.{Map, lookup, insert, kept}
use jiuyue.Base.Int.{ℤ, max_ℤ}
use jiuyue.Contract.{SyncCursor}

abbrev pub cursor_checkpoint_batch : ℕ
cursor_checkpoint_batch = 64

pub record CursorCheckpoint : Type 0 where
  pub pending : Map String ℤ

unfoldable pub new : CursorCheckpoint
new = record { pending = [] }

-- `and_modify(max).or_insert`.
abbrev pub highest : Option ℤ → ℤ → ℤ
highest none seq = seq
highest (some old) seq = max_ℤ old seq

-- `CursorCheckpoint::record`: whether the buffer holds a whole batch.
unfoldable pub record_cursor : CursorCheckpoint → SyncCursor → CursorCheckpoint × Bool
record_cursor c cursor =
    let pending =
      insert cursor.conversation_id
        (highest (lookup cursor.conversation_id c.pending) cursor.last_seq) c.pending in
    (record { pending = pending }, leb cursor_checkpoint_batch (length pending))

unfoldable pub is_nothing_pending : CursorCheckpoint → Bool
is_nothing_pending c = is_empty c.pending

batch_of : Map String ℤ → List SyncCursor
batch_of [] = []
batch_of ((id, seq) ∷ m) = record { conversation_id = id; last_seq = seq } ∷ batch_of m

unfoldable pub batch : CursorCheckpoint → List SyncCursor
unfolding batch_of
batch c = batch_of c.pending

unfoldable pub clear : CursorCheckpoint → CursorCheckpoint
clear c = record { pending = [] }

-- A store of a Device's positions: `save` answers whether the batch was written, and is told it.
pub record CursorStore : Type 1 where
  pub Db : Type 0
  pub save : Db → List SyncCursor → Db × Bool

module _ (s : CursorStore) where
  open s use {Db, save}

  -- `Session::flush_cursors`: the buffer is kept when the write fails.
  unfoldable pub flush_cursors : CursorCheckpoint → Db → CursorCheckpoint × Db
  unfolding batch clear is_nothing_pending
  flush_cursors c db =
      if is_nothing_pending c
      then (c, db)
      else (let (db', written) = save db (batch c) in (if written then clear c else c, db'))

  -- `Session::record_cursor`: an early flush when the buffer fills.
  unfoldable pub report : CursorCheckpoint → Db → SyncCursor → CursorCheckpoint × Db
  unfolding flush_cursors record_cursor
  report c db cursor =
      let (c', is_full) = record_cursor c cursor in
      if is_full then flush_cursors c' db else (c', db)
