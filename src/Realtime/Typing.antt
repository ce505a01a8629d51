-- ===== src/Realtime/Typing.antt =====
-- backend/crates/realtime/src/typing.rs: who is composing where, with a throttle and an expiry.
-- The lock is held over a whole handler, so each handler is one step; the clock and the audience
-- that the chat domain resolves are arguments, and instants are counts of nanoseconds.
pub mod Decide
pub mod Stream
pub mod Handle
pub mod Tests
use jiuyue.Base.{
  ltb, leb, ◌==◌, if◌then◌else◌, text_discrete, is_empty, ℕ, ◌-◌, ◌/◌, String, Bool, true, false,
  not, ◌&&◌, ◌||◌, Option, none, some, List, [], text_key, nat_key,
}
use jiuyue.Base.Map.{Map, retain, lookup, insert, remove}
use jiuyue.Base.Word.{from_secs, saturating_duration_since}
use jiuyue.Base.{DecEq}
use jiuyue.Contract.{TypingState, started, stopped, TypingState-discrete, TypingSignal, ServerEvent}
use jiuyue.Realtime.Registry.{Channel, ConnectionRegistry, deliver}

pub record TypingLimits : Type 0 where
  pub ttl : ℕ
  pub throttle : ℕ

abbrev pub production : TypingLimits
production = record { ttl = from_secs 10; throttle = from_secs 5 }

pub record TypingKey : Type 0 where
  pub conversation_id : String
  pub user_id : String

unfoldable pub TypingKey-discrete : Discrete TypingKey
TypingKey-discrete = hlevel text_discrete

instance abbrev pub typing_key : DecEq TypingKey
typing_key = record { dec = TypingKey-discrete }

pub record TypingEntry : Type 0 where
  pub active : Bool
  pub last_change_at : ℕ

unfoldable pub is_active : TypingEntry → ℕ → ℕ → Bool
is_active e now ttl = e.active && ltb (saturating_duration_since now e.last_change_at) ttl

pub record TypingDirectory : Type 0 where
  pub entries : Map TypingKey TypingEntry
  pub limits : TypingLimits

unfoldable pub new : TypingLimits → TypingDirectory
new limits = record { entries = []; limits = limits }

-- `state == TypingState::Started`.
abbrev pub is_started : TypingState → Bool
is_started started = true
is_started stopped = false

abbrev decide_known : TypingLimits → TypingEntry → TypingState → ℕ → Bool
unfolding is_active
decide_known l e started now =
    not (is_active e now l.ttl) || leb l.throttle (saturating_duration_since now e.last_change_at)
decide_known l e stopped now = is_active e now l.ttl

-- Whether a signal earns a fan-out. Nothing to cancel for a key that is not known.
unfoldable pub decide : TypingDirectory → TypingKey → TypingState → ℕ → Bool
unfolding is_active decide_known
decide d key state now = elim (lookup key d.entries) [
  | none ↦ is_started state
  | some e ↦ decide_known d.limits e state now
]

-- `TypingDirectory::record`: the transition that the caller broadcasts.
unfoldable pub record_typing : TypingDirectory → TypingKey → TypingState → ℕ → TypingDirectory
record_typing d key state now = record d {
  entries = insert key (record { active = is_started state; last_change_at = now }) d.entries;
}

unfoldable pub forget : TypingDirectory → TypingKey → TypingDirectory
forget d key = record d { entries = remove key d.entries }

unfoldable pub sweep : TypingDirectory → ℕ → TypingDirectory
sweep d now = record d { entries = retain (λ _ e. is_active e now d.limits.ttl) d.entries }

module _ (c : Channel) where
  open c use {Queue}

  -- The end of both handlers, from the point where the audience is asked for. `none` stands for an
  -- audience that could not be resolved.
  unfoldable pub announce :
      TypingDirectory
      → ConnectionRegistry Queue
      → TypingKey
      → TypingState
      → ℕ
      → Option (List String)
      → TypingDirectory × ConnectionRegistry Queue
  unfolding record_typing forget
  announce d r key state now none = (forget d key, r)
  announce d r key state now (some audience) = (
    record_typing d key state now,
    (if is_empty audience
        then r
        else (deliver c r audience (
            ServerEvent.typing (record {
              conversation_id = key.conversation_id;
              user_id = key.user_id;
              state = state;
            }))).0),
  )

  unfoldable pub handle_typing :
      TypingDirectory
      → ConnectionRegistry Queue
      → String
      → TypingSignal
      → ℕ
      → Option (List String)
      → TypingDirectory × ConnectionRegistry Queue
  unfolding announce
  handle_typing d r user_id signal now audience =
      let key : TypingKey = record {
        conversation_id = signal.conversation_id;
        user_id = user_id;
      } in
      if decide d key signal.state now then announce d r key signal.state now audience else (d, r)

  -- A Message says that its sender stopped.
  unfoldable pub clear_typing :
      TypingDirectory
      → ConnectionRegistry Queue
      → String
      → String
      → ℕ
      → Option (List String)
      → TypingDirectory × ConnectionRegistry Queue
  unfolding announce
  clear_typing d r user_id conversation_id now audience =
      let key : TypingKey = record { conversation_id = conversation_id; user_id = user_id } in
      if decide d key stopped now then announce d r key stopped now audience else (d, r)
