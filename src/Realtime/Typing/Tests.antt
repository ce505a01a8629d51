-- ===== src/Realtime/Typing/Tests.antt =====
-- Typing on concrete clocks: an expiry of ten and a throttle of five.
use jiuyue.Base.{
  text_discrete, ◌≡◌, refl, true, false, List, [], ◌∷◌, ◌++◌, arith, text_key, nat_key, ℕ, some,
}
use jiuyue.Base.Map.{retain, lookup, insert, remove}
use jiuyue.Contract.{started, stopped, TypingSignal, ServerEvent, TypingState}
use jiuyue.Realtime.Registry.{ConnectionRegistry, Channel, TrySend, accepted}
use jiuyue.Realtime.Registry
use jiuyue.Realtime.Typing.{
  TypingKey, TypingKey-discrete, typing_key, TypingDirectory, new, decide, record_typing, sweep,
  handle_typing,
}
use jiuyue.Realtime.Typing.Decide.{IsValid}
use jiuyue.Realtime.Typing.Stream.{broadcasts, Spaced, Lit, broadcasts-Spaced, broadcasts-Lit}

program : Unit {0}
unfolding new decide record_typing sweep handle_typing broadcasts lookup insert remove retain
    text_discrete TypingKey-discrete
program = tt

abbrev key : TypingKey
key = record { conversation_id = "c1"; user_id = "alice" }

abbrev idle : TypingDirectory
idle = new (record { ttl = 10; throttle = 5 })

abbrev typing_at_3 : TypingDirectory
typing_at_3 = record_typing idle key started 3

abbrev starts : List ℕ → List (TypingState × ℕ)
starts [] = []
starts (t ∷ ts) = (started, t) ∷ starts ts

keystrokes_collapse :
    broadcasts idle key (starts (3 ∷ 4 ∷ 5 ∷ 7 ∷ 8 ∷ 9 ∷ 12 ∷ 13 ∷ 30 ∷ []))
    ≡ starts (3 ∷ 8 ∷ 13 ∷ 30 ∷ [])
unfolding program
keystrokes_collapse = refl

a_late_stop_cancels_nothing :
    (decide typing_at_3 key stopped 12 ≡ true) × (decide typing_at_3 key stopped 13 ≡ false)
unfolding program
a_late_stop_cancels_nothing = (refl, refl)

typing_at_3-IsValid : IsValid typing_at_3
unfolding program
typing_at_3-IsValid = (refl, tt)

abbrev pauses : List (TypingState × ℕ)
pauses =
    (started, 4) ∷ (stopped, 5) ∷ (stopped, 6) ∷ (started, 6) ∷ (started, 9) ∷ (started, 11) ∷ []

a_start_after_a_stop_is_not_held :
    broadcasts typing_at_3 key pauses ≡ (stopped, 5) ∷ (started, 6) ∷ (started, 11) ∷ []
unfolding program
a_start_after_a_stop_is_not_held = refl

broadcasts-Spaced_example :
    Spaced typing_at_3.limits (some 3) ((stopped, 5) ∷ (started, 6) ∷ (started, 11) ∷ [])
unfolding program
broadcasts-Spaced_example = broadcasts-Spaced pauses typing_at_3 key 3 (omega arith) (omega arith)

broadcasts-Lit_example : Lit typing_at_3 key 3 (5 ∷ 9 ∷ 12 ∷ [])
unfolding program
broadcasts-Lit_example =
    broadcasts-Lit (5 ∷ 9 ∷ 12 ∷ []) typing_at_3 key 3 3 4 refl (omega arith) (omega arith)
      (omega arith) (omega arith)

-- A channel that takes everything.
abbrev endless : Channel
endless = record {
  Queue = List ServerEvent;
  contents = λ q. q;
  try_send = λ q e. (q ++ e ∷ [], accepted);
  contents-accepted = λ q e h. refl;
  contents-refused = λ q e h. absurd (h refl);
}

abbrev bob_listens : ConnectionRegistry (List ServerEvent)
bob_listens = (Registry.register Registry.new "bob" []).0

abbrev start : TypingSignal
start = record { conversation_id = "c1"; state = started }
