-- ===== src/Realtime/Typing/Decide.antt =====
-- One decision: what a transition leaves behind, and that sweeping the directory changes no
-- decision that is still to be made.
use jiuyue.Base.{
  ltb, leb, if◌then◌else◌, ℕ, ◌-◌, ◌≤◌, ◌≡◌, ite, not, ◌&&◌, ◌||◌, arith, text_key, nat_key,
}
use jiuyue.Base.Map.{Distinct, lookup-insert, insert-Distinct, lookup-retain, retain-Distinct}
-- none
use jiuyue.Contract.{TypingState, started, stopped}
use jiuyue.Realtime.Typing.{
  TypingKey, TypingKey-discrete, typing_key, TypingDirectory, is_active, is_started, decide,
  record_typing, sweep,
}

abbrev pub IsValid : TypingDirectory → Type 0
IsValid d = Distinct d.entries

pub record_typing-IsValid :
    (d : TypingDirectory) (key : TypingKey) (state : TypingState) (now : ℕ)
    → IsValid d
    → IsValid (record_typing d key state now)
unfolding record_typing
record_typing-IsValid d key state now v = insert-Distinct key _ d.entries v

pub sweep-IsValid : (d : TypingDirectory) (now : ℕ) → IsValid d → IsValid (sweep d now)
unfolding sweep
sweep-IsValid d now v = retain-Distinct _ d.entries v

-- The sweep forgets only what no longer matters: every decision at that time or later is the one
-- that the directory would have taken without it.
decide-sweep :
    (d : TypingDirectory) (key : TypingKey) (state : TypingState) (now later : ℕ)
    → IsValid d
    → now ≤ later
    → decide (sweep d now) key state later ≡ decide d key state later
unfolding decide sweep is_active
decide-sweep d key started now later v h =
    ground (arith, lookup-retain (λ _ e. is_active e now d.limits.ttl) key d.entries v)
decide-sweep d key stopped now later v h =
    ground (arith, lookup-retain (λ _ e. is_active e now d.limits.ttl) key d.entries v)

-- After a transition is recorded, a signal about another key is decided as before. About the same
-- key: a stop earns a broadcast exactly while a start still shows, and a start exactly when
-- nothing shows or the throttle has passed.
pub decide-record_typing :
    (d : TypingDirectory) (key other : TypingKey) (was state : TypingState) (at later : ℕ)
    → decide (record_typing d key was at) other state later
      ≡ ite
          (TypingKey-discrete key other)
          (let showing = is_started was && ltb (later - at) d.limits.ttl in
            if is_started state then not showing || leb d.limits.throttle (later - at) else showing)
          (decide d other state later)
unfolding decide record_typing is_active
decide-record_typing d key other was started at later = ground (
  arith,
  lookup-insert key other (record { active = is_started was; last_change_at = at }) d.entries,
)
decide-record_typing d key other was stopped at later = ground (
  arith,
  lookup-insert key other (record { active = is_started was; last_change_at = at }) d.entries,
)
