-- ===== src/Realtime/Liveness.antt =====
-- backend/crates/realtime/src/liveness.rs: the last heartbeat of a peer. Instants are counts of
-- nanoseconds of a monotone clock.
use jiuyue.Base.{ltb, ℕ, Bool, false, Option, none, some, nat_key, text_key}
use jiuyue.Base.Word.{saturating_duration_since}

pub record ConnectionLiveness : Type 0 where
  pub last_beat : Option ℕ

unfoldable pub record_beat : ConnectionLiveness → ℕ → ConnectionLiveness
record_beat l now = record { last_beat = some now }

unfoldable pub is_expired : ConnectionLiveness → ℕ → ℕ → Bool
is_expired l deadline now = elim l.last_beat [
  | none ↦ false
  | some last_beat ↦ ltb deadline (saturating_duration_since now last_beat)
]
