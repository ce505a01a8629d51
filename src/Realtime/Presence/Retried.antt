-- ===== src/Realtime/Presence/Retried.antt =====
-- What refused writes keep, until one is accepted.
use jiuyue.Base.{
  text_key, nat_key, String, ◌≡◌, refl, ◌∙◌, Bool, true, false, Option, none, some, List, [], ◌∷◌,
  arith,
}
use jiuyue.Base.Map.{keys, lookup, insert, contains_key, lookup-insert}
use jiuyue.Base.Int.{ℤ, pos}
use jiuyue.Realtime.Registry.{Channel, ConnectionRegistry}
use jiuyue.Realtime.Presence.{
  mark, insert_all, mark_many, PresenceState, write_checkpoint, user_came_online, user_went_offline,
  checkpoint_presence,
}
use jiuyue.Realtime.Presence.Recorded.{
  stamped, write_checkpoint-Recorded, contains_key-insert_all, checkpoint_presence-Recorded,
}

module _ (c : Channel) where
  open c use {Queue}

  -- A call that writes nothing: the database refuses its statement, or it has none. What others
  -- mark while the statement is awaited comes with it.
  pub data Call : Type 0 where
    came_online : ConnectionRegistry Queue → String → Option (List String) → Call
    went_offline :
        List String → ConnectionRegistry Queue → String → Option ℤ → Option (List String) → Call
    heartbeat : List String → Bool → ConnectionRegistry Queue → Call

  unfoldable pub refused : (String → Bool) → PresenceState → Call → PresenceState
  refused accounts s (came_online r user_id audience) = (user_came_online c s r user_id audience).0
  refused accounts s (went_offline meanwhile r user_id now_ms audience) =
      (user_went_offline c accounts none meanwhile s r user_id now_ms audience).0
  refused accounts s (heartbeat meanwhile locked r) =
      checkpoint_presence c accounts none meanwhile locked s r

  unfoldable pub all_refused : (String → Bool) → PresenceState → List Call → PresenceState
  all_refused accounts s [] = s
  all_refused accounts s (k ∷ ks) = all_refused accounts (refused accounts s k) ks

  -- Nothing was written, and the User is still pending.
  record Keeps (u : String) (s s' : PresenceState) : Type 0 where
    table : s'.user_presence ≡ s.user_presence
    pending : contains_key u s'.checkpoint ≡ true

  refused_write-Keeps :
      (accounts : String → Bool) (meanwhile : List String) (s : PresenceState) (u : String)
      → contains_key u s.checkpoint ≡ true
      → Keeps u s (write_checkpoint accounts none meanwhile s).0
  refused_write-Keeps accounts meanwhile s u h =
      let (_, table, pending) = write_checkpoint-Recorded accounts (pos 0) meanwhile s u in
      record { table = table; pending = pending h }

  refused-Keeps :
      (accounts : String → Bool) (s : PresenceState) (k : Call) (u : String)
      → contains_key u s.checkpoint ≡ true
      → Keeps u s (refused accounts s k)
  unfolding refused user_came_online user_went_offline checkpoint_presence mark mark_many
  refused-Keeps accounts s (came_online r v audience) u h = record {
    table = refl;
    pending = ground (arith, h, lookup-insert v u tt s.checkpoint);
  }
  refused-Keeps accounts s (went_offline meanwhile r v now_ms audience) u h =
      let marked : PresenceState = record s { checkpoint = insert v tt s.checkpoint } in
      let kept =
        refused_write-Keeps accounts meanwhile marked u
          (ground (arith, h, lookup-insert v u tt s.checkpoint)) in
      record { table = kept.table; pending = kept.pending }
  refused-Keeps accounts s (heartbeat meanwhile false r) u h = record { table = refl; pending = h }
  refused-Keeps accounts s (heartbeat meanwhile true r) u h =
      let marked : PresenceState = record s {
        checkpoint = insert_all s.checkpoint (keys r.connections);
      } in
      let kept =
        refused_write-Keeps accounts meanwhile marked u
          (ground (arith, h, contains_key-insert_all s.checkpoint (keys r.connections) u)) in
      record { table = kept.table; pending = kept.pending }

  all_refused-Keeps :
      (accounts : String → Bool) (ks : List Call) (s : PresenceState) (u : String)
      → contains_key u s.checkpoint ≡ true
      → Keeps u s (all_refused accounts s ks)
  unfolding all_refused
  all_refused-Keeps accounts [] s u h = record { table = refl; pending = h }
  all_refused-Keeps accounts (k ∷ ks) s u h =
      let one = refused-Keeps accounts s k u h in
      let rest = all_refused-Keeps accounts ks (refused accounts s k) u one.pending in
      record { table = rest.table ∙ one.table; pending = rest.pending }

  went_offline-Keeps :
      (accounts : String → Bool) (meanwhile : List String) (s : PresenceState)
      (r : ConnectionRegistry Queue) (u : String) (now_ms : Option ℤ)
      (audience : Option (List String))
      → Keeps u s (user_went_offline c accounts none meanwhile s r u now_ms audience).0
  unfolding user_went_offline mark
  went_offline-Keeps accounts meanwhile s r u now_ms audience =
      let marked : PresenceState = record s { checkpoint = insert u tt s.checkpoint } in
      let kept =
        refused_write-Keeps accounts meanwhile marked u
          (ground (arith, lookup-insert u u tt s.checkpoint)) in
      record { table = kept.table; pending = kept.pending }

  -- A User with an account who goes offline while the database refuses the write stays pending
  -- through any further calls whose writes are refused, and an accepted heartbeat after them gives
  -- the User its instant, or the later one that was stored. The calls run one after the other: of a
  -- write that was awaited already when the User was marked this says nothing.
  pub user_went_offline-retried :
      (accounts : String → Bool) (now : ℤ) (meanwhile later : List String) (s : PresenceState)
      (r r' : ConnectionRegistry Queue) (u : String) (now_ms : Option ℤ)
      (audience : Option (List String)) (ks : List Call)
      → accounts u ≡ true
      → lookup u
          (checkpoint_presence c accounts
            (some now)
            later
            true
            (all_refused accounts
              (user_went_offline c accounts none meanwhile s r u now_ms audience).0
              ks)
            r').user_presence
        ≡ some (stamped now (lookup u s.user_presence))
  user_went_offline-retried accounts now meanwhile later s r r' u now_ms audience ks a =
      let gone = went_offline-Keeps accounts meanwhile s r u now_ms audience in
      let left = (user_went_offline c accounts none meanwhile s r u now_ms audience).0 in
      let kept = all_refused-Keeps accounts ks left u gone.pending in
      checkpoint_presence-Recorded c accounts now later (all_refused accounts left ks) r' u
      ∙ rw (kept.table, gone.table, kept.pending, a) refl
