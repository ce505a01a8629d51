-- ===== src/Chat/SyncCursors/Rows.antt =====
-- What a save leaves in each row of the table.
use jiuyue.Base.{
  ◌≢◌, if◌then◌else◌, Bool-cases, is_some, select, String, ◌≡◌, refl, sym, inl, inr, false, none,
  some, List, [], ◌∷◌, arith, text_key, nat_key, ite, ◌∙◌, Option, is_empty, ◌∙◌, text_discrete,
  true,
}
use jiuyue.Base.Map.{Map, lookup, insert, Distinct, lookup-insert, insert-Distinct}
use jiuyue.Base.Int.{ℤ, max_ℤ}
use jiuyue.Contract.{SyncCursor}
use jiuyue.Realtime.Cursor.{highest}
use jiuyue.Realtime.Cursor.Laws.{join, join_assoc, join-none, some-highest, top}
use jiuyue.Chat.Errors.{ok}
use jiuyue.Chat.SyncCursors.{
  CursorKey, CursorRow, position_of, cursor_key, is_storable, normalise_into, listed,
  normalise_cursors, Tables, exists_in, named, repeats, upsert_rows, upsert_sync_cursors,
  save_sync_cursors,
}

lookup-normalise_into :
    (cs : List SyncCursor) (m : Map String ℤ) (id : String)
    → lookup id (normalise_into m cs) ≡ join (lookup id m) (top id (select is_storable cs))
unfolding normalise_into
lookup-normalise_into [] m id = sym (join-none (lookup id m))
lookup-normalise_into (c ∷ cs) m id = elim (Bool-cases (is_storable c)) [
  | inl keep ↦ rw keep (
      ground (
        arith,
        lookup-normalise_into cs
            (insert c.conversation_id (highest (lookup c.conversation_id m) c.last_seq) m) id,
        lookup-insert c.conversation_id id (highest (lookup c.conversation_id m) c.last_seq) m,
        some-highest (lookup id m) c.last_seq,
        join_assoc (lookup id m) (some c.last_seq) (top id (select is_storable cs)),
      ))
  | inr skip ↦ rw skip (lookup-normalise_into cs m id)
]

normalise_into-Distinct :
    (cs : List SyncCursor) (m : Map String ℤ) → Distinct m → Distinct (normalise_into m cs)
unfolding normalise_into
normalise_into-Distinct [] m d = d
normalise_into-Distinct (c ∷ cs) m d = normalise_into-Distinct cs _ (
    ground (
      arith,
      insert-Distinct c.conversation_id (highest (lookup c.conversation_id m) c.last_seq) m d,
    ))

named-listed : (m : Map String ℤ) (id : String) → named (listed m) id ≡ is_some (lookup id m)
unfolding listed lookup
named-listed [] id = refl
named-listed ((j, seq) ∷ m) id = ground (arith, named-listed m id)

listed-repeats :
    (known : List String) (m : Map String ℤ) → Distinct m → repeats known (listed m) ≡ false
unfolding listed repeats
listed-repeats known [] d = refl
listed-repeats known ((j, seq) ∷ m) d = ground (arith, named-listed m j, listed-repeats known m d.1)

top-listed_absent : (id : String) (m : Map String ℤ) → lookup id m ≡ none → top id (listed m) ≡ none
unfolding listed lookup
top-listed_absent id [] h = refl
top-listed_absent id ((j, seq) ∷ m) h = ground (arith, top-listed_absent id m)

top-listed : (id : String) (m : Map String ℤ) → Distinct m → top id (listed m) ≡ lookup id m
unfolding listed lookup
top-listed id [] d = refl
top-listed id ((j, seq) ∷ m) d = ground (arith, top-listed id m d.1, top-listed_absent id m)

abbrev pub row : String → String → CursorKey
row session id = record { session_id = session; conversation_id = id }

-- The stored position of a Device in a Conversation.
abbrev pub seq_at : Map CursorKey CursorRow → String → String → Option ℤ
seq_at rows session id = position_of (lookup (row session id) rows)

abbrev updated : ℤ → Map CursorKey CursorRow → String → SyncCursor → CursorRow
updated now rows session c = record {
  last_seq = highest (position_of (lookup (row session c.conversation_id) rows)) c.last_seq;
  updated_at = now;
}

-- One candidate of the statement.
abbrev stepped :
    List String → ℤ → Map CursorKey CursorRow → String → SyncCursor → Map CursorKey CursorRow
stepped known now rows session c =
    if exists_in known c.conversation_id
    then insert (row session c.conversation_id) (updated now rows session c) rows
    else rows

lookup-stepped :
    (known : List String) (now : ℤ) (c : SyncCursor) (rows : Map CursorKey CursorRow)
    (session id : String)
    → seq_at (stepped known now rows session c) session id ≡ (
        if exists_in known id
        then ite
            (text_discrete c.conversation_id id)
            (join (seq_at rows session id) (some c.last_seq))
            (seq_at rows session id)
        else seq_at rows session id)
lookup-stepped known now c rows session id = ground (
  arith,
  lookup-insert (row session c.conversation_id) (row session id) (updated now rows session c) rows,
  some-highest (seq_at rows session id) c.last_seq,
)

lookup-upsert_rows :
    (known : List String) (now : ℤ) (cs : List SyncCursor) (rows : Map CursorKey CursorRow)
    (session id : String)
    → seq_at (upsert_rows known now rows session cs) session id ≡ (
        if exists_in known id
        then join (seq_at rows session id) (top id cs)
        else seq_at rows session id)
unfolding upsert_rows
lookup-upsert_rows known now [] rows session id = ground (arith, join-none (seq_at rows session id))
lookup-upsert_rows known now (c ∷ cs) rows session id =
    lookup-upsert_rows known now cs (stepped known now rows session c) session id
    ∙ ground (
      arith,
      lookup-stepped known now c rows session id,
      join_assoc (seq_at rows session id) (some c.last_seq) (top id cs),
    )

-- A statement for one Device leaves the rows of the others alone, with their instants.
upsert_rows-others :
    (known : List String) (now : ℤ) (cs : List SyncCursor) (rows : Map CursorKey CursorRow)
    (session other id : String)
    → session ≢ other
    → lookup (row other id) (upsert_rows known now rows session cs) ≡ lookup (row other id) rows
unfolding upsert_rows
upsert_rows-others known now [] rows session other id ne = refl
upsert_rows-others known now (c ∷ cs) rows session other id ne =
    upsert_rows-others known now cs (stepped known now rows session c) session other id ne
    ∙ ground (
      arith,
      lookup-insert (row session c.conversation_id) (row other id) (updated now rows session c)
          rows,
      ne,
    )

-- What a list of reports amounts to for one Conversation: its highest position, if the id is well
-- formed, the Conversation exists and the position is positive.
abbrev pub storable : String → Option ℤ → Option ℤ
storable id none = none
storable id (some seq) =
    if is_storable (record { conversation_id = id; last_seq = seq }) then some seq else none

pub storable-join :
    (id : String) (a b : Option ℤ) → storable id (join a b) ≡ join (storable id a) (storable id b)
unfolding is_storable max_ℤ
storable-join id none b = refl
storable-join id (some a) none = ground arith
storable-join id (some a) (some b) = ground arith

top-select :
    (id : String) (cs : List SyncCursor) → top id (select is_storable cs) ≡ storable id (top id cs)
unfolding is_storable
top-select id [] = refl
top-select id (c ∷ cs) =
    ground (arith, top-select id cs, storable-join id (some c.last_seq) (top id cs))

top-normalised :
    (id : String) (cs : List SyncCursor) → top id (normalise_cursors cs) ≡ storable id (top id cs)
unfolding normalise_cursors lookup
top-normalised id cs =
    top-listed id (normalise_into [] cs) (normalise_into-Distinct cs [] tt)
    ∙ lookup-normalise_into cs [] id
    ∙ top-select id cs

abbrev pub saved : Tables → String → String → Option ℤ → Option ℤ
saved t session id position =
    if exists_in t.conversations id
    then join (seq_at t.sync_cursors session id) (storable id position)
    else seq_at t.sync_cursors session id

normalise_cursors-repeats :
    (known : List String) (cs : List SyncCursor) → repeats known (normalise_cursors cs) ≡ false
unfolding normalise_cursors
normalise_cursors-repeats known cs =
    listed-repeats known (normalise_into [] cs) (normalise_into-Distinct cs [] tt)

upsert_sync_cursors-row :
    (t : Tables) (now : ℤ) (session id : String) (ns : List SyncCursor) (position : Option ℤ)
    → top id ns ≡ storable id position
    → repeats t.conversations ns ≡ false
    → ((upsert_sync_cursors t now session ns).1 ≡ ok tt)
      × (seq_at (upsert_sync_cursors t now session ns).0.sync_cursors session id
          ≡ saved t session id position)
unfolding upsert_sync_cursors
upsert_sync_cursors-row t now session id ns position e f = rw f (refl, rw (lookup-upsert_rows, e))

nothing_saved :
    (t : Tables) (session id : String) (ns : List SyncCursor) (position : Option ℤ)
    → top id ns ≡ storable id position
    → is_empty ns ≡ true
    → seq_at t.sync_cursors session id ≡ saved t session id position
nothing_saved t session id [] position e h =
    rw (← e) (ground (arith, join-none (seq_at t.sync_cursors session id)))
nothing_saved t session id (c ∷ cs) position e h = cc

-- A save never fails for its batch, whatever the batch holds. Each row of the Device ends at the
-- higher of what it was and the highest position reported for its Conversation, where the id is
-- well formed, the position positive and the Conversation known; else it is unchanged.
pub save_sync_cursors-row :
    (t : Tables) (now : ℤ) (session id : String) (cs : List SyncCursor)
    → ((save_sync_cursors t now session cs).1 ≡ ok tt)
      × (seq_at (save_sync_cursors t now session cs).0.sync_cursors session id
          ≡ saved t session id (top id cs))
unfolding save_sync_cursors
save_sync_cursors-row t now session id cs = elim (Bool-cases (is_empty (normalise_cursors cs))) [
  | inl nothing ↦
      rw nothing (refl, nothing_saved t session id _ (top id cs) (top-normalised id cs) nothing)
  | inr something ↦ rw something (
      upsert_sync_cursors-row t now session id (normalise_cursors cs) (top id cs)
        (top-normalised id cs) (normalise_cursors-repeats t.conversations cs))
]

pub save_sync_cursors-others :
    (t : Tables) (now : ℤ) (session other id : String) (cs : List SyncCursor)
    → session ≢ other
    → lookup (row other id) (save_sync_cursors t now session cs).0.sync_cursors
      ≡ lookup (row other id) t.sync_cursors
unfolding save_sync_cursors upsert_sync_cursors
save_sync_cursors-others t now session other id cs ne = ground (
  arith,
  upsert_rows-others t.conversations now (normalise_cursors cs) t.sync_cursors session other id ne,
)
