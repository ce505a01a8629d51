-- ===== src/Realtime/Replay.antt =====
-- backend/crates/realtime/src/replay.rs: the bounded buffer of the envelopes that one connection
-- sent, newest last.
pub mod Laws
use jiuyue.Base.{
  ltb, ◌==◌, if◌then◌else◌, length, drop, select, first, last, ℕ, ◌+◌, ◌-◌, ◌/◌, max, Option, none,
  some, List, [], ◌∷◌, ◌++◌,
}
use jiuyue.Base.Word.{checked_add64}
use jiuyue.Contract.{ServerEnvelope}

abbrev pub default_replay_capacity : ℕ
default_replay_capacity = 128

pub record ReplayBuffer : Type 0 where
  pub capacity : ℕ
  pub envelopes : List ServerEnvelope

unfoldable pub new : ℕ → ReplayBuffer
new capacity = record { capacity = max capacity 1; envelopes = [] }

-- `ReplayBuffer::record`: `pop_front` on a full buffer, then `push_back`.
unfoldable pub record_envelope : ReplayBuffer → ServerEnvelope → ReplayBuffer
record_envelope b e =
    let rest = if length b.envelopes == b.capacity then drop 1 b.envelopes else b.envelopes in
    record b { envelopes = rest ++ e ∷ [] }

infixl 5 ◌>>=◌
abbrev ◌>>=◌ : {A B : Type 0} → Option A → (A → Option B) → Option B
none >>= f = none
some a >>= f = f a

unfoldable pub after : ReplayBuffer → ℕ → Option (List ServerEnvelope)
after b last_seq = do
  oldest ← first b.envelopes
  newest ← last b.envelopes
  next ← checked_add64 last_seq 1
  if ltb next oldest.sequence
      then none
      else (if ltb newest.sequence last_seq
          then none
          else some (select (λ e. ltb last_seq e.sequence) b.envelopes))
