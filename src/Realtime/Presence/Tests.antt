-- ===== src/Realtime/Presence/Tests.antt =====
-- The checkpoint of presence on two Users, alice and bob, who both have an account.
use jiuyue.Base.{text_discrete, text_key, nat_key}
use jiuyue.Base.{
  text_discrete, text_key, nat_key, String, ◌≡◌, refl, Bool, true, false, none, some, List, [], ◌∷◌,
  ◌++◌,
}
use jiuyue.Base.Map.{lookup, insert, remove}
use jiuyue.Base.Int.{pos, max_ℤ}
use jiuyue.Contract.{ServerEvent}
use jiuyue.Realtime.Registry.{
  ConnectionRegistry, Channel, TrySend, accepted, online_user_ids, is_online,
}
use jiuyue.Realtime.Registry
use jiuyue.Realtime.Presence.{
  mark, insert_all, mark_many, upsert_last_seen, save_last_seen, last_seen, PresenceState,
  accept_batch, write_checkpoint, broadcast_presence, user_came_online, user_went_offline,
  checkpoint_presence,
}
use jiuyue.Realtime.Presence.Recorded.{checkpoint_presence-Recorded}
use jiuyue.Realtime.Presence.Retried.{Call, heartbeat, all_refused, user_went_offline-retried}

program : Unit {0}
unfolding mark insert_all mark_many upsert_last_seen save_last_seen last_seen accept_batch
    write_checkpoint broadcast_presence user_came_online user_went_offline checkpoint_presence
    lookup insert remove text_discrete max_ℤ online_user_ids is_online Registry.new
    Registry.register Registry.deliver
program = tt

abbrev endless : Channel
endless = record {
  Queue = List ServerEvent;
  contents = λ q. q;
  try_send = λ q e. (q ++ e ∷ [], accepted);
  contents-accepted = λ q e h. refl;
  contents-refused = λ q e h. absurd (h refl);
}

abbrev everybody : String → Bool
everybody user_id = true

abbrev nobody_online : ConnectionRegistry (List ServerEvent)
nobody_online = Registry.new

abbrev bob_online : ConnectionRegistry (List ServerEvent)
bob_online = (Registry.register Registry.new "bob" []).0

abbrev alice_seen_at_5 : PresenceState
alice_seen_at_5 = record { checkpoint = []; user_presence = ("alice", pos 5) ∷ [] }

-- The commit of a checkpoint clears what was marked while the statement was awaited. Bob, whose
-- own write was refused and who is not online any more, gets no instant from the next heartbeat.
a_mark_during_a_write_is_lost :
    last_seen
      ("alice" ∷ "bob" ∷ [])
      (checkpoint_presence endless everybody
        (some (pos 30))
        []
        true
        (user_went_offline endless everybody
          (some (pos 7))
          ("bob" ∷ [])
          alice_seen_at_5
          nobody_online
          "alice"
          none
          none).0
        nobody_online).user_presence
    ≡ ("alice", pos 7) ∷ []
unfolding program
a_mark_during_a_write_is_lost = refl

a_clock_that_steps_back_rewinds_nothing :
    (user_went_offline endless everybody
      (some (pos 3))
      []
      alice_seen_at_5
      nobody_online
      "alice"
      none
      none).0.user_presence
    ≡ ("alice", pos 5) ∷ []
unfolding program
a_clock_that_steps_back_rewinds_nothing = refl

checkpoint_presence-Recorded_example :
    lookup "bob"
      (checkpoint_presence endless everybody
        (some (pos 30))
        ("alice" ∷ [])
        true
        alice_seen_at_5
        bob_online).user_presence
    ≡ some (pos 30)
unfolding program
checkpoint_presence-Recorded_example =
    checkpoint_presence-Recorded endless everybody (pos 30) ("alice" ∷ []) alice_seen_at_5
      bob_online "bob"

abbrev retries : List (Call endless)
retries = heartbeat ("alice" ∷ []) true nobody_online ∷ heartbeat [] false bob_online ∷ []

user_went_offline-retried_example :
    lookup "bob"
      (checkpoint_presence endless everybody
        (some (pos 40))
        ("alice" ∷ [])
        true
        (all_refused endless everybody
          (user_went_offline endless everybody none
            ("alice" ∷ [])
            alice_seen_at_5
            bob_online
            "bob"
            (some (pos 30))
            (some ("alice" ∷ []))).0
          retries)
        nobody_online).user_presence
    ≡ some (pos 40)
unfolding program
user_went_offline-retried_example =
    user_went_offline-retried endless everybody (pos 40) ("alice" ∷ []) ("alice" ∷ [])
      alice_seen_at_5 bob_online nobody_online "bob" (some (pos 30)) (some ("alice" ∷ [])) retries
      refl
