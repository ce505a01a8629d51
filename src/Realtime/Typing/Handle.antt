-- ===== src/Realtime/Typing/Handle.antt =====
-- The handlers: who hears of a typing signal, and what a rejected sender leaves behind.
use jiuyue.Base.{ℕ, String, ◌≡◌, refl, Option, none, some, List, [], ◌∷◌, arith, text_key, nat_key}
use jiuyue.Contract.{TypingState, stopped, TypingSignal}
use jiuyue.Realtime.Registry.{Channel, ConnectionRegistry}
use jiuyue.Realtime.Registry.Delivery.{queue, times, queue-deliver_absent}
use jiuyue.Realtime.Typing.{
  TypingKey, typing_key, TypingDirectory, announce, handle_typing, clear_typing,
}

module _ (c : Channel) where
  open c use {Queue}

  announce-outside :
      (d : TypingDirectory) (r : ConnectionRegistry Queue) (key : TypingKey) (state : TypingState)
      (now : ℕ) (audience : List String) (u : String) (id : ℕ)
      → times c u audience ≡ 0
      → queue c (announce c d r key state now (some audience)).1 u id ≡ queue c r u id
  unfolding announce
  announce-outside d r key state now [] u id h = refl
  announce-outside d r key state now (v ∷ vs) u id h = queue-deliver_absent c r (v ∷ vs) u _ id h

  -- A typing signal reaches nobody outside the audience that the chat domain resolved for it,
  -- whatever the directory holds.
  handle_typing-audience :
      (d : TypingDirectory) (r : ConnectionRegistry Queue) (user_id : String)
      (signal : TypingSignal) (now : ℕ) (audience : List String) (u : String) (id : ℕ)
      → times c u audience ≡ 0
      → queue c (handle_typing c d r user_id signal now (some audience)).1 u id ≡ queue c r u id
  unfolding handle_typing
  handle_typing-audience d r user_id signal now audience u id h = ground (
    arith,
    announce-outside d r (record { conversation_id = signal.conversation_id; user_id = user_id })
        signal.state now audience u id h,
  )

  -- Nor does the stop that goes with a Message.
  pub clear_typing-outside :
      (d : TypingDirectory) (r : ConnectionRegistry Queue) (user_id conversation_id : String)
      (now : ℕ) (audience : Option (List String)) (u : String) (id : ℕ)
      → ((us : List String) → audience ≡ some us → times c u us ≡ 0)
      → queue c (clear_typing c d r user_id conversation_id now audience).1 u id ≡ queue c r u id
  unfolding clear_typing announce
  clear_typing-outside d r user_id conversation_id now none u id h = ground arith
  clear_typing-outside d r user_id conversation_id now (some us) u id h = ground (
    arith,
    announce-outside d r (record { conversation_id = conversation_id; user_id = user_id }) stopped
        now us u id (h us refl),
  )
