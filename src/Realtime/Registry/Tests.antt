-- ===== src/Realtime/Registry/Tests.antt =====
-- The registry on concrete histories, over a channel of capacity two.
use jiuyue.Base.{
  ltb, if◌then◌else◌, text_discrete, length, ◌≡◌, refl, ◌≢◌, some, List, [], ◌∷◌, ◌++◌, arith,
  ℕ_discrete, text_key, nat_key,
}
use jiuyue.Base.Map.{lookup, insert, remove}
use jiuyue.Contract.{ServerEvent, started}
use jiuyue.Realtime.Registry.{
  Channel, TrySend, accepted, full, ConnectionRegistry, became_online, became_offline, unchanged,
  new, register, unregister, is_online, online_user_ids, user_connection_count, deliver,
}
use jiuyue.Realtime.Registry.Invariant.{IsValid, new-IsValid, register-IsValid}
use jiuyue.Realtime.Registry.Delivery
use jiuyue.Realtime.Registry.Delivery.{queue, times, Extends}
use jiuyue.Realtime.Registry.Trace
use jiuyue.Realtime.Registry.Trace.{Call, registers, unregisters, run, heard, reports, Alternates}

program : Unit {0}
unfolding new register unregister is_online online_user_ids user_connection_count deliver run heard
    lookup insert remove text_discrete ℕ_discrete
program = tt

pair_send : List ServerEvent → ServerEvent → List ServerEvent × TrySend
pair_send q e = if ltb (length q) 2 then (q ++ e ∷ [], accepted) else (q, full)

pair_send-accepted :
    (q : List ServerEvent) (e : ServerEvent)
    → (pair_send q e).1 ≡ accepted
    → (pair_send q e).0 ≡ q ++ e ∷ []
unfolding pair_send
pair_send-accepted q e h = ground arith

pair_send-refused :
    (q : List ServerEvent) (e : ServerEvent) → (pair_send q e).1 ≢ accepted → (pair_send q e).0 ≡ q
unfolding pair_send
pair_send-refused q e h = ground (arith, h)

abbrev pair : Channel
pair = record {
  Queue = List ServerEvent;
  contents = λ q. q;
  try_send = pair_send;
  contents-accepted = pair_send-accepted;
  contents-refused = pair_send-refused;
}

abbrev composing : ServerEvent
composing =
    ServerEvent.typing (record { conversation_id = "c1"; user_id = "alice"; state = started })

abbrev empty : ConnectionRegistry (List ServerEvent)
empty = new

-- A phone and a laptop of alice.
abbrev two_devices : ConnectionRegistry (List ServerEvent)
two_devices = (register (register empty "alice" []).0 "alice" []).0

only_the_first_and_last_device_count :
    ((register empty "alice" []).2 ≡ became_online)
    × ((register (register empty "alice" []).0 "alice" []).2 ≡ unchanged)
    × ((unregister two_devices "alice" 0).1 ≡ unchanged)
    × ((unregister (unregister two_devices "alice" 0).0 "alice" 1).1 ≡ became_offline)
    × ((unregister two_devices "alice" 7).1 ≡ unchanged)
unfolding program
only_the_first_and_last_device_count = (refl, refl, refl, refl, refl)

delivered_to_both : (deliver pair two_devices ("alice" ∷ "bob" ∷ []) composing).1 ≡ 2
unfolding program pair_send
delivered_to_both = refl

empty-IsValid : IsValid empty
empty-IsValid = new-IsValid

one_device-IsValid : IsValid (register empty "alice" []).0
unfolding new
one_device-IsValid = register-IsValid empty "alice" [] (omega arith) empty-IsValid

abbrev history : List (Call (List ServerEvent))
history =
    registers "alice" []
    ∷ registers "alice" []
    ∷ unregisters "alice" 0
    ∷ registers "bob" []
    ∷ unregisters "alice" 1
    ∷ []

heard-is_online_example :
    (heard "alice" (is_online empty "alice") empty history ≡ is_online (run empty history) "alice")
    × Alternates (is_online empty "alice") (reports "alice" empty history)
unfolding new
heard-is_online_example = Trace.heard-is_online history empty "alice" empty-IsValid (omega arith)

deliver-Extends_example :
    (q' : List ServerEvent) × (queue pair
        (deliver pair two_devices ("alice" ∷ []) composing).0
        "alice"
        1
      ≡ some q')
    × Extends pair composing 1 [] q'
    × (times pair "alice" ("alice" ∷ []) ≡ 0 → q' ≡ [])
unfolding program
deliver-Extends_example =
    Delivery.deliver-Extends pair two_devices ("alice" ∷ []) "alice" composing 1 [] refl
