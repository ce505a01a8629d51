-- ===== src/Realtime/Presence/Recorded.antt =====
-- What the checkpoint of presence writes, and what a failed write keeps.
use jiuyue.Base.Map.{Map, keys, lookup, insert, contains_key, lookup-insert}
use jiuyue.Base.Int.{ℤ, max_ℤ, max_ℤ_assoc, max_ℤ_self}
use jiuyue.Realtime.Registry.{Channel, ConnectionRegistry, online_user_ids, is_online}
use jiuyue.Base.{
  text_key, nat_key, if◌then◌else◌, Option-cases, text_discrete, is_empty, String, ◌≡◌, refl, ap,
  ◌∙◌, inl, inr, ite, Bool, true, false, ◌&&◌, ◌||◌, Option, none, some, List, [], ◌∷◌, arith,
}
use jiuyue.Realtime.Presence.{
  UserSet, insert_all, mark_many, batch, upsert_last_seen, save_last_seen, PresenceState,
  accept_batch, write_checkpoint, checkpoint_presence,
}

abbrev mentions : List String → String → Bool
mentions [] u = false
mentions (v ∷ vs) u = ite (text_discrete v u) true (mentions vs u)

-- The instant of a User after a write at `now`: `GREATEST`, or the first one.
abbrev pub stamped : ℤ → Option ℤ → ℤ
stamped now none = now
stamped now (some last_seen_at) = max_ℤ last_seen_at now

mentions-keys :
    {V : Type 0} → (m : Map String V) (u : String) → mentions (keys m) u ≡ contains_key u m
unfolding lookup
mentions-keys [] u = refl
mentions-keys ((v, w) ∷ m) u = ground (arith, mentions-keys m u)

pub contains_key-insert_all :
    (pending : UserSet) (vs : List String) (u : String)
    → contains_key u (insert_all pending vs) ≡ (contains_key u pending || mentions vs u)
unfolding insert_all
contains_key-insert_all pending [] u = ground arith
contains_key-insert_all pending (v ∷ vs) u =
    ground (arith, contains_key-insert_all (insert v tt pending) vs u, lookup-insert v u tt pending)

stamped_twice : (now : ℤ) (o : Option ℤ) → stamped now (some (stamped now o)) ≡ stamped now o
stamped_twice now none = max_ℤ_self now
stamped_twice now (some t) = max_ℤ_assoc t now now ∙ ap (max_ℤ t) (max_ℤ_self now)

lookup-upsert_last_seen :
    (accounts : String → Bool) (now : ℤ) (v u : String) (table : Map String ℤ)
    → lookup u (upsert_last_seen accounts now v table)
      ≡ ite
          (text_discrete v u)
          (if accounts u then some (stamped now (lookup u table)) else lookup u table)
          (lookup u table)
unfolding upsert_last_seen
lookup-upsert_last_seen accounts now v u table = elim (Option-cases (lookup v table)) [
  | inl h ↦ rw h (ground (arith, lookup-insert v u now table))
  | inr (t, h) ↦ rw h (ground (arith, lookup-insert v u (max_ℤ t now) table))
]

lookup-save_last_seen :
    (accounts : String → Bool) (now : ℤ) (vs : List String) (u : String) (table : Map String ℤ)
    → lookup u (save_last_seen accounts now vs table) ≡ (
        if accounts u && mentions vs u then some (stamped now (lookup u table)) else lookup u table)
unfolding save_last_seen
lookup-save_last_seen accounts now [] u table = ground arith
lookup-save_last_seen accounts now (v ∷ vs) u table = ground (
  arith,
  lookup-save_last_seen accounts now vs u (upsert_last_seen accounts now v table),
  lookup-upsert_last_seen accounts now v u table,
  stamped_twice now (lookup u table),
)

empty_absent : (p : UserSet) (u : String) → is_empty p ≡ true → contains_key u p ≡ false
unfolding lookup
empty_absent [] u h = refl
empty_absent (e ∷ p) u h = ground arith

-- A checkpoint whose statement the database accepts gives every pending User with an account the
-- instant of the write, or the later one that is stored, and changes no other row. One that it
-- refuses changes no row and forgets nobody who was pending.
pub write_checkpoint-Recorded :
    (accounts : String → Bool) (now : ℤ) (meanwhile : List String) (s : PresenceState) (u : String)
    → (lookup u (write_checkpoint accounts (some now) meanwhile s).0.user_presence ≡ (
        if accounts u && contains_key u s.checkpoint
        then some (stamped now (lookup u s.user_presence))
        else lookup u s.user_presence))
      × ((write_checkpoint accounts none meanwhile s).0.user_presence ≡ s.user_presence)
      × (contains_key u s.checkpoint ≡ true
          → contains_key u (write_checkpoint accounts none meanwhile s).0.checkpoint ≡ true)
unfolding write_checkpoint accept_batch mark_many
write_checkpoint-Recorded accounts now meanwhile s u = (
  ground (
    arith,
    empty_absent s.checkpoint u,
    mentions-keys s.checkpoint u,
    lookup-save_last_seen accounts now (batch s.checkpoint) u s.user_presence,
  ),
  ground arith,
  λ h. ground (arith, contains_key-insert_all s.checkpoint meanwhile u),
)

module _ (c : Channel) where
  open c use {Queue}

  -- A heartbeat that holds the lock and whose statement is accepted gives the instant of the write,
  -- or the later one that is stored, to every User with an account who is online or was pending,
  -- and changes no other row.
  pub checkpoint_presence-Recorded :
      (accounts : String → Bool) (now : ℤ) (meanwhile : List String) (s : PresenceState)
      (r : ConnectionRegistry Queue) (u : String)
      → lookup u (checkpoint_presence c accounts (some now) meanwhile true s r).user_presence ≡ (
          if accounts u && (contains_key u s.checkpoint || is_online r u)
          then some (stamped now (lookup u s.user_presence))
          else lookup u s.user_presence)
  unfolding checkpoint_presence mark_many online_user_ids is_online
  checkpoint_presence-Recorded accounts now meanwhile s r u = ground (
    arith,
    (write_checkpoint-Recorded accounts now meanwhile
        (record s { checkpoint = insert_all s.checkpoint (keys r.connections) }) u).0,
    contains_key-insert_all s.checkpoint (keys r.connections) u,
    mentions-keys r.connections u,
  )
