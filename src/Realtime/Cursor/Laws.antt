-- ===== src/Realtime/Cursor/Laws.antt =====
-- What the buffer holds after any reports, and that flushing loses none of them.
use jiuyue.Base.{
  text_discrete, length, ◌<◌, String, ◌≡◌, refl, sym, ap, ite, if_pos, if_neg, true, false, Option,
  none, some, List, [], ◌∷◌, arith, text_key, nat_key,
}
use jiuyue.Base.Map.{Map, lookup, Distinct, lookup-insert, insert-Distinct}
use jiuyue.Base.Int.{ℤ, max_ℤ, max_ℤ_assoc, max_ℤ_comm}
use jiuyue.Contract.{SyncCursor}
use jiuyue.Realtime.Cursor.{
  CursorCheckpoint, cursor_checkpoint_batch, highest, record_cursor, batch, batch_of,
  is_nothing_pending, clear, CursorStore, flush_cursors, report,
}

-- The larger of two positions, either of which may be missing.
abbrev pub join : Option ℤ → Option ℤ → Option ℤ
join none b = b
join (some a) none = some a
join (some a) (some b) = some (max_ℤ a b)

pub join_assoc : (a b c : Option ℤ) → join (join a b) c ≡ join a (join b c)
join_assoc none b c = refl
join_assoc (some a) none c = refl
join_assoc (some a) (some b) none = refl
join_assoc (some a) (some b) (some c) = ap some (max_ℤ_assoc a b c)

pub join_comm : (a b : Option ℤ) → join a b ≡ join b a
join_comm none none = refl
join_comm none (some b) = refl
join_comm (some a) none = refl
join_comm (some a) (some b) = ap some (max_ℤ_comm a b)

pub join-none : (a : Option ℤ) → join a none ≡ a
join-none none = refl
join-none (some a) = refl

pub some-highest : (o : Option ℤ) (seq : ℤ) → some (highest o seq) ≡ join o (some seq)
some-highest none seq = refl
some-highest (some a) seq = refl

-- The highest position that a list of reports gives for a Conversation.
abbrev pub top : String → List SyncCursor → Option ℤ
top id [] = none
top id (c ∷ cs) =
    ite (text_discrete c.conversation_id id) (join (some c.last_seq) (top id cs)) (top id cs)

pub lookup-record_cursor :
    (c : CursorCheckpoint) (cursor : SyncCursor) (id : String)
    → lookup id (record_cursor c cursor).0.pending
      ≡ ite
          (text_discrete cursor.conversation_id id)
          (join (lookup id c.pending) (some cursor.last_seq))
          (lookup id c.pending)
unfolding record_cursor
lookup-record_cursor c cursor id =
    rw lookup-insert (elim (text_discrete cursor.conversation_id id) [
      | yes p ↦
          rw (if_pos _ p, if_pos _ p, ← p)
            (some-highest (lookup cursor.conversation_id c.pending) cursor.last_seq)
      | no p ↦ rw (if_neg _ p, if_neg _ p) refl
    ])

-- Every report recorded in turn, nothing flushed.
unfoldable pub record_all : CursorCheckpoint → List SyncCursor → CursorCheckpoint
record_all c [] = c
record_all c (r ∷ rs) = record_all (record_cursor c r).0 rs

-- Reports that arrive out of order, late or twice coalesce to the highest position of each
-- Conversation, and never rewind one.
pub lookup-record_all :
    (rs : List SyncCursor) (c : CursorCheckpoint) (id : String)
    → lookup id (record_all c rs).pending ≡ join (lookup id c.pending) (top id rs)
unfolding record_all
lookup-record_all [] c id = sym (join-none (lookup id c.pending))
lookup-record_all (r ∷ rs) c id = ground (
  arith,
  lookup-record_all rs (record_cursor c r).0 id,
  lookup-record_cursor c r id,
  join_assoc (lookup id c.pending) (some r.last_seq) (top id rs),
)

abbrev pub IsValid : CursorCheckpoint → Type 0
IsValid c = Distinct c.pending

pub record_cursor-IsValid :
    (c : CursorCheckpoint) (r : SyncCursor) → IsValid c → IsValid (record_cursor c r).0
unfolding record_cursor
record_cursor-IsValid c r v = insert-Distinct _ _ c.pending v

-- The batch reports for each Conversation the position that is pending for it.
top-batch_absent :
    (id : String) (m : Map String ℤ) → lookup id m ≡ none → top id (batch_of m) ≡ none
unfolding batch_of lookup
top-batch_absent id [] h = refl
top-batch_absent id ((j, seq) ∷ m) h = ground (arith, top-batch_absent id m)

top-batch_of : (id : String) (m : Map String ℤ) → Distinct m → top id (batch_of m) ≡ lookup id m
unfolding batch_of lookup
top-batch_of id [] d = refl
top-batch_of id ((j, seq) ∷ m) d = ground (arith, top-batch_of id m d.1, top-batch_absent id m)

pub top-batch :
    (c : CursorCheckpoint) (id : String) → IsValid c → top id (batch c) ≡ lookup id c.pending
unfolding batch
top-batch c id v = top-batch_of id c.pending v

-- A buffer between two reports holds less than a batch.
module _ (s : CursorStore) where
  open s use {Db, save}

  -- A failed write keeps the buffer as it is, so that the next flush tries the same batch again; a
  -- successful one empties it.
  flush_cursors_retry :
      (c : CursorCheckpoint) (db : Db)
      → ((save db (batch c)).1 ≡ false → (flush_cursors s c db).0 ≡ c)
        × ((save db (batch c)).1 ≡ true → (flush_cursors s c db).0.pending ≡ [])
  unfolding flush_cursors clear is_nothing_pending
  flush_cursors_retry c db = (λ h. ground arith, λ h. emptied c.pending refl h)
    where
      emptied :
          (m : Map String ℤ)
          → c.pending ≡ m
          → (save db (batch c)).1 ≡ true
          → (flush_cursors s c db).0.pending ≡ []
      emptied [] e h = ground arith
      emptied (x ∷ m) e h = ground arith

  -- While writes succeed, a connection's buffer never holds a whole batch between two reports.
  report_bound :
      (c : CursorCheckpoint) (db : Db) (r : SyncCursor)
      → ((d : Db) (b : List SyncCursor) → (save d b).1 ≡ true)
      → length c.pending < cursor_checkpoint_batch
      → length (report s c db r).0.pending < cursor_checkpoint_batch
  unfolding report record_cursor
  report_bound c db r writes h =
      ground (
        arith,
        flush_cursors_retry (record_cursor c r).0 db,
        writes db (batch (record_cursor c r).0),
      )
