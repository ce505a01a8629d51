-- ===== src/Chat/SyncCursors/Coalesced.antt =====
-- Coalescing reports in memory before saving them loses no position.
use jiuyue.Base.Int.{ℤ}
use jiuyue.Base.{
  text_discrete, ◌≢◌, refl, subst, String, ◌≡◌, sym, some, List, [], ◌∷◌, arith, text_key, nat_key,
  ◌∙◌, ◌∙◌, ap,
}
use jiuyue.Base.Map.{lookup}
use jiuyue.Contract.{SyncCursor}
use jiuyue.Realtime.Cursor.{new, batch, CursorCheckpoint}
use jiuyue.Realtime.Cursor.Laws.{
  join_assoc, join-none, top, record_all, top-batch, IsValid, lookup-record_all,
  record_cursor-IsValid,
}
use jiuyue.Chat.SyncCursors.{
  cursor_key, position_of, Tables, upsert_sync_cursors, save_sync_cursors,
}
use jiuyue.Chat.SyncCursors.Rows.{
  row, seq_at, storable, saved, storable-join, save_sync_cursors-row, save_sync_cursors-others,
}

-- A report and the instant at which a server without the buffer would write it.
abbrev pub Timed : Type 0
Timed = ℤ × SyncCursor

abbrev pub reports_of : List Timed → List SyncCursor
reports_of [] = []
reports_of ((now, c) ∷ rs) = c ∷ reports_of rs

-- Each report written on its own.
unfoldable pub save_each : Tables → String → List Timed → Tables
save_each t session [] = t
save_each t session ((now, c) ∷ rs) =
    save_each (save_sync_cursors t now session (c ∷ [])).0 session rs

conversations-save :
    (t : Tables) (now : ℤ) (session : String) (cs : List SyncCursor)
    → (save_sync_cursors t now session cs).0.conversations ≡ t.conversations
unfolding save_sync_cursors upsert_sync_cursors
conversations-save t now session cs = ground arith

save_each-row :
    (rs : List Timed) (t : Tables) (session id : String)
    → seq_at (save_each t session rs).sync_cursors session id
      ≡ saved t session id (top id (reports_of rs))
unfolding save_each
save_each-row [] t session id = ground (arith, join-none (seq_at t.sync_cursors session id))
save_each-row ((now, c) ∷ rs) t session id =
    save_each-row rs (save_sync_cursors t now session (c ∷ [])).0 session id
    ∙ ground (
      arith,
      conversations-save t now session (c ∷ []),
      save_sync_cursors-row t now session id (c ∷ []),
      storable-join id (some c.last_seq) (top id (reports_of rs)),
      join_assoc (seq_at t.sync_cursors session id) (storable id (some c.last_seq))
          (storable id (top id (reports_of rs))),
    )

save_each-others :
    (rs : List Timed) (t : Tables) (session other id : String)
    → session ≢ other
    → lookup (row other id) (save_each t session rs).sync_cursors
      ≡ lookup (row other id) t.sync_cursors
unfolding save_each
save_each-others [] t session other id ne = refl
save_each-others ((now, c) ∷ rs) t session other id ne =
    save_each-others rs (save_sync_cursors t now session (c ∷ [])).0 session other id ne
    ∙ save_sync_cursors-others t now session other id (c ∷ []) ne

record_all-IsValid :
    (rs : List SyncCursor) (c : CursorCheckpoint) → IsValid c → IsValid (record_all c rs)
unfolding record_all
record_all-IsValid [] c v = v
record_all-IsValid (r ∷ rs) c v = record_all-IsValid rs _ (record_cursor-IsValid c r v)

top-batch-record_all :
    (rs : List SyncCursor) (id : String) → top id (batch (record_all new rs)) ≡ top id rs
unfolding new lookup
top-batch-record_all rs id =
    top-batch (record_all new rs) id (record_all-IsValid rs new tt) ∙ lookup-record_all rs new id

-- Coalescing loses no position: whatever reports are gathered in memory and saved as one batch, and
-- whenever, each row of every Device holds the position that saving the reports one by one, at any
-- instants, would leave. The instants of the rows are those of the saves, and are not compared.
pub save-coalesced :
    (t : Tables) (now : ℤ) (session other id : String) (rs : List Timed)
    → seq_at
        (save_sync_cursors t now session (batch (record_all new (reports_of rs)))).0.sync_cursors
        other
        id
      ≡ seq_at (save_each t session rs).sync_cursors other id
save-coalesced t now session other id rs =
    let cs = batch (record_all new (reports_of rs)) in
    elim (text_discrete session other) [
      | yes same ↦
          subst
            (λ s.
              seq_at (save_sync_cursors t now session cs).0.sync_cursors s id
              ≡ seq_at (save_each t session rs).sync_cursors s id)
            same
            ((save_sync_cursors-row t now session id cs).1
              ∙ ap (saved t session id) (top-batch-record_all (reports_of rs) id)
              ∙ sym (save_each-row rs t session id))
      | no ne ↦ ap position_of (
          save_sync_cursors-others t now session other id cs ne
          ∙ sym (save_each-others rs t session other id ne))
    ]
