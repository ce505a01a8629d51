-- ===== src/Realtime/Cursor/Tests.antt =====
-- The coalescing buffer over a store that writes, and over one that fails.
use jiuyue.Base.{
  text_discrete, ℕ, String, ◌≡◌, refl, true, false, List, [], ◌∷◌, ◌++◌, text_key, nat_key,
}
use jiuyue.Base.Map.{lookup, insert}
use jiuyue.Base.Int.{pos, max_ℤ}
use jiuyue.Contract.{SyncCursor}
use jiuyue.Realtime.Cursor.{new, record_cursor, CursorStore}
use jiuyue.Realtime.Cursor.Laws.{record_all}

-- What was saved so far.
abbrev saving : CursorStore
saving = record { Db = List SyncCursor; save = λ db b. (db ++ b, true) }

abbrev failing : CursorStore
failing = record { Db = List SyncCursor; save = λ db b. (db, false) }

at : String → ℕ → SyncCursor
at id seq = record { conversation_id = id; last_seq = pos seq }

abbrev reports : List SyncCursor
reports = at "c1" 9 ∷ at "c2" 5 ∷ at "c1" 4 ∷ []

a_lower_position_never_rewinds :
    (record_all new reports).pending ≡ ("c1", pos 9) ∷ ("c2", pos 5) ∷ []
unfolding record_all record_cursor new at insert lookup text_discrete max_ℤ
a_lower_position_never_rewinds = refl
