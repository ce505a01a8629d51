-- ===== src/Chat/SyncCursors.antt =====
-- backend/crates/chat: `normalise_cursors` and `save_sync_cursors` of service.rs over the
-- `UPSERT_SYNC_CURSORS` statement of repository.rs.
pub mod Rows
pub mod Coalesced
pub mod Tests
use jiuyue.Base.{
  Option, none, some, if◌then◌else◌, text_discrete, is_empty, ◌-◌, ◌/◌, ◌<◌, String, ite, Bool,
  true, false, not, ◌&&◌, ◌||◌, List, [], ◌∷◌, map, text_key, nat_key,
}
use jiuyue.Base.Map.{Map, lookup, insert}
use jiuyue.Base.Int.{ℤ, pos, ltb_ℤ}
use jiuyue.Base.{DecEq}
use jiuyue.Contract.{SyncCursor}
use jiuyue.Realtime.Cursor.{highest}
use jiuyue.Chat.Errors.{Result, ok, err, database}
use jiuyue.Chat.Ident.{is_ulid}

-- The primary key of `sync_cursors`.
pub record CursorKey : Type 0 where
  pub session_id : String
  pub conversation_id : String

unfoldable pub CursorKey-discrete : Discrete CursorKey
CursorKey-discrete = hlevel text_discrete

instance abbrev pub cursor_key : DecEq CursorKey
cursor_key = record { dec = CursorKey-discrete }

-- `!is_ulid(id) || last_seq < 1` is skipped.
unfoldable pub is_storable : SyncCursor → Bool
is_storable c = is_ulid c.conversation_id && not (ltb_ℤ c.last_seq (pos 1))

-- The loop of `normalise_cursors` over its map.
unfoldable pub normalise_into : Map String ℤ → List SyncCursor → Map String ℤ
normalise_into m [] = m
normalise_into m (c ∷ cs) =
    normalise_into
      (if is_storable c
        then insert c.conversation_id (highest (lookup c.conversation_id m) c.last_seq) m
        else m)
      cs

unfoldable pub listed : Map String ℤ → List SyncCursor
listed [] = []
listed ((id, seq) ∷ m) = record { conversation_id = id; last_seq = seq } ∷ listed m

unfoldable pub normalise_cursors : List SyncCursor → List SyncCursor
unfolding normalise_into listed
normalise_cursors cs = listed (normalise_into [] cs)

-- A row of `sync_cursors` under its key.
pub record CursorRow : Type 0 where
  pub last_seq : ℤ
  pub updated_at : ℤ

abbrev pub position_of : Option CursorRow → Option ℤ
position_of none = none
position_of (some r) = some r.last_seq

-- The rows of `sync_cursors`, and which Conversations exist.
pub record Tables : Type 0 where
  pub sync_cursors : Map CursorKey CursorRow
  pub conversations : List String

abbrev pub exists_in : List String → String → Bool
exists_in [] id = false
exists_in (c ∷ cs) id = ite (text_discrete c id) true (exists_in cs id)

abbrev named : List SyncCursor → String → Bool
named [] id = false
named (c ∷ cs) id = ite (text_discrete c.conversation_id id) true (named cs id)

-- PostgreSQL refuses an `ON CONFLICT DO UPDATE` that meets one row twice.
unfoldable pub repeats : List String → List SyncCursor → Bool
repeats known [] = false
repeats known (c ∷ cs) =
    (exists_in known c.conversation_id && named cs c.conversation_id) || repeats known cs

-- The join drops an unknown Conversation; `GREATEST` keeps a row from moving back. `now()` is the
-- default of a new row and is set on an old one.
unfoldable pub upsert_rows :
    List String → ℤ → Map CursorKey CursorRow → String → List SyncCursor → Map CursorKey CursorRow
upsert_rows known now rows session [] = rows
upsert_rows known now rows session (c ∷ cs) =
    let key : CursorKey = record { session_id = session; conversation_id = c.conversation_id } in
    upsert_rows known now
      (if exists_in known c.conversation_id
        then insert key
            (record {
              last_seq = highest (position_of (lookup key rows)) c.last_seq;
              updated_at = now;
            })
            rows
        else rows)
      session cs

unfoldable pub upsert_sync_cursors :
    Tables → ℤ → String → List SyncCursor → Tables × Result (Unit {0})
unfolding repeats upsert_rows
upsert_sync_cursors t now session cs = if repeats t.conversations cs then (t, err database) else (
  record t { sync_cursors = upsert_rows t.conversations now t.sync_cursors session cs },
  ok tt,
)

unfoldable pub save_sync_cursors :
    Tables → ℤ → String → List SyncCursor → Tables × Result (Unit {0})
unfolding normalise_cursors upsert_sync_cursors
save_sync_cursors t now session cs =
    let normalised = normalise_cursors cs in
    if is_empty normalised then (t, ok tt) else upsert_sync_cursors t now session normalised
