-- ===== src/Realtime/Typing/Stream.antt =====
-- What is broadcast of the signals of one Participant, against the throttle and against the expiry at
-- the receivers. The audience is resolved each time.
use jiuyue.Base.{
  ap, ◌∙◌, subst, ltb, leb, if◌then◌else◌, Bool-cases, ℕ, ◌+◌, ◌-◌, ◌≤◌, ◌<◌, min, ◌≡◌, inl, inr,
  true, not, ◌||◌, Option, none, some, List, [], ◌∷◌, arith, text_key, nat_key, refl,
}
use jiuyue.Base.Map.{lookup, lookup-insert}
use jiuyue.Contract.{TypingState, started, stopped}
use jiuyue.Realtime.Typing.{
  TypingKey, typing_key, TypingLimits, TypingEntry, TypingDirectory, is_active, is_started, decide,
  record_typing,
}

-- The signals of one key that are broadcast, each with its instant.
unfoldable pub broadcasts :
    TypingDirectory → TypingKey → List (TypingState × ℕ) → List (TypingState × ℕ)
broadcasts d key [] = []
broadcasts d key ((state, t) ∷ ss) =
    let sent = (state, t) ∷ broadcasts (record_typing d key state t) key ss in
    let held = broadcasts d key ss in if decide d key state t then sent else held

-- The clock does not run backwards.
abbrev pub Rising : ℕ → List (TypingState × ℕ) → Type 0
Rising p [] = Unit {0}
Rising p ((state, t) ∷ ss) = (p ≤ t) × Rising t ss

-- Since when the receivers were told that the Participant types, if that was not taken back.
abbrev pub shown_since : Option TypingEntry → Option ℕ
shown_since none = none
shown_since (some e) = if e.active then some e.last_change_at else none

-- What may be told next.
abbrev pub IsDue : TypingLimits → Option ℕ → TypingState → ℕ → Type 0
IsDue l none started t = Unit {0}
IsDue l (some b) started t = b + min l.throttle l.ttl ≤ t
IsDue l none stopped t = ⊥
IsDue l (some b) stopped t = t < b + l.ttl

abbrev pub told : TypingState → ℕ → Option ℕ
told started t = some t
told stopped t = none

abbrev pub Spaced : TypingLimits → Option ℕ → List (TypingState × ℕ) → Type 0
Spaced l since [] = Unit {0}
Spaced l since ((state, t) ∷ ss) = IsDue l since state t × Spaced l (told state t) ss

-- The last change of the entry is not in the future.
abbrev pub IsPast : ℕ → Option TypingEntry → Type 0
IsPast p none = Unit {0}
IsPast p (some e) = e.last_change_at ≤ p

IsPast-later : (o : Option TypingEntry) (p t : ℕ) → IsPast p o → p ≤ t → IsPast t o
IsPast-later none p t h le = tt
IsPast-later (some e) p t h le = omega arith

entry-record_typing :
    (d : TypingDirectory) (key : TypingKey) (state : TypingState) (t : ℕ)
    → lookup key (record_typing d key state t).entries
      ≡ some (record { active = is_started state; last_change_at = t })
unfolding record_typing
entry-record_typing d key state t = ground (
  arith,
  lookup-insert key key (record { active = is_started state; last_change_at = t }) d.entries,
)

told-shown_since :
    (state : TypingState) (t : ℕ)
    → shown_since (some (record { active = is_started state; last_change_at = t })) ≡ told state t
told-shown_since started t = refl
told-shown_since stopped t = refl

decide-IsDue :
    (d : TypingDirectory) (key : TypingKey) (state : TypingState) (p t : ℕ) (o : Option TypingEntry)
    → lookup key d.entries ≡ o
    → IsPast p o
    → p ≤ t
    → decide d key state t ≡ true
    → IsDue d.limits (shown_since o) state t
unfolding decide is_active
decide-IsDue d key started p t none e past le sent = tt
decide-IsDue d key stopped p t none e past le sent = absurd (ground arith)
decide-IsDue d key started p t (some e) q past le sent = elim (Bool-cases e.active) [
  | inl on ↦ rw on (ground (arith, on, q, past, le, sent))
  | inr off ↦ rw off tt
]
decide-IsDue d key stopped p t (some e) q past le sent = elim (Bool-cases e.active) [
  | inl on ↦ rw on (ground (arith, on, q, past, le, sent))
  | inr off ↦ absurd (ground (arith, off, q, sent))
]

-- However fast the signals of a Participant come, starts and stops in any order, by a clock that does
-- not run backwards and with audiences that are resolved: a start that is broadcast while the
-- indicator was not taken back comes at least a throttle after the start that was broadcast before
-- it, or an expiry, where that is shorter. A stop is broadcast only to take back a start, before
-- that expires.
pub broadcasts-Spaced :
    (ss : List (TypingState × ℕ)) (d : TypingDirectory) (key : TypingKey) (p : ℕ)
    → IsPast p (lookup key d.entries)
    → Rising p ss
    → Spaced d.limits (shown_since (lookup key d.entries)) (broadcasts d key ss)
unfolding broadcasts record_typing
broadcasts-Spaced [] d key p past rising = tt
broadcasts-Spaced ((state, t) ∷ ss) d key p past rising = elim (Bool-cases (decide d key state t)) [
  | inr held ↦ rw held (
      broadcasts-Spaced ss d key t (IsPast-later (lookup key d.entries) p t past rising.0) rising.1)
  | inl sent ↦
      let after = record_typing d key state t in
      let entry = entry-record_typing d key state t in
      let rest = broadcasts-Spaced ss after key t (rw entry (omega arith)) rising.1 in
      rw sent (
        decide-IsDue d key state p t (lookup key d.entries) refl past rising.0 sent,
        subst (λ o. Spaced d.limits o (broadcasts after key ss))
            (ap shown_since entry ∙ told-shown_since state t) rest,
      )
]

-- Starts only, each at most `gap` after the one before it.
abbrev pub Steady : ℕ → ℕ → List ℕ → Type 0
Steady gap p [] = Unit {0}
Steady gap p (t ∷ ts) = (p ≤ t) × (t ≤ p + gap) × Steady gap t ts

-- At every start of a stream the last broadcast, at `b`, has not expired at the receivers.
unfoldable pub Lit : TypingDirectory → TypingKey → ℕ → List ℕ → Type 0
Lit d key b [] = Unit {0}
Lit d key b (t ∷ ts) =
    (t < b + d.limits.ttl)
    × Lit (if decide d key started t then record_typing d key started t else d) key
        (if decide d key started t then t else b) ts

decide-shown :
    (d : TypingDirectory) (key : TypingKey) (b t : ℕ)
    → lookup key d.entries ≡ some (record { active = true; last_change_at = b })
    → decide d key started t ≡ (not (ltb (t - b) d.limits.ttl) || leb d.limits.throttle (t - b))
unfolding decide is_active
decide-shown d key b t h = ground arith

-- If the client, less than a throttle after a start of it was broadcast, goes on to repeat the start
-- at least every `gap`, and a throttle and a gap fit into the expiry, the indicator never blinks:
-- when a start comes, what was broadcast last has not expired yet.
pub broadcasts-Lit :
    (ts : List ℕ) (d : TypingDirectory) (key : TypingKey) (b p gap : ℕ)
    → lookup key d.entries ≡ some (record { active = true; last_change_at = b })
    → b ≤ p
    → p < b + d.limits.throttle
    → d.limits.throttle + gap ≤ d.limits.ttl
    → Steady gap p ts
    → Lit d key b ts
unfolding Lit record_typing
broadcasts-Lit [] d key b p gap shown h recent room steady = tt
broadcasts-Lit (t ∷ ts) d key b p gap shown h recent room steady =
    let (rising, near, rest) = steady in
    elim (Bool-cases (decide d key started t)) [
      | inl sent ↦ rw sent (
        omega arith,
        broadcasts-Lit ts (record_typing d key started t) key t t gap
            (entry-record_typing d key started t) (omega arith) (omega arith) room rest,
      )
      | inr held ↦ rw held (
        omega arith,
        broadcasts-Lit ts d key b t gap shown (omega arith)
            (ground (arith, decide-shown d key b t shown)) room rest,
      )
    ]
