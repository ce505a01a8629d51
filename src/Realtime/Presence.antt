-- ===== src/Realtime/Presence.antt =====
-- backend/crates/realtime/src/presence.rs: who waits for a last-seen instant, the table
-- `user_presence`, and what a User who comes or goes sets off. What happens between two awaits is
-- one step; what other tasks mark while a statement is awaited is the argument `meanwhile`. The
-- answer of the chat domain's `presence_audience` is an argument, `none` for its error.
pub mod Recorded
pub mod Retried
pub mod Tests
use jiuyue.Base.{
  leb, if◌then◌else◌, length, is_empty, ℕ, ◌-◌, ◌/◌, ◌<◌, String, Bool, true, false, not, Option,
  none, some, List, [], ◌∷◌, text_key, nat_key,
}
use jiuyue.Base.Map.{Map, keys, lookup, insert}
use jiuyue.Base.Int.{ℤ, max_ℤ}
use jiuyue.Contract.{Presence, PresenceStatus, online, offline, ServerEvent}
use jiuyue.Realtime.Registry.{Channel, ConnectionRegistry, online_user_ids, is_online, deliver}

abbrev pub presence_checkpoint_batch : ℕ
presence_checkpoint_batch = 512

-- `HashSet<String>`.
abbrev pub UserSet : Type 0
UserSet = Map String (Unit {0})

unfoldable pub mark : UserSet → String → UserSet × Bool
mark pending user_id =
    let marked = insert user_id tt pending in
    (marked, leb presence_checkpoint_batch (length marked))

unfoldable pub insert_all : UserSet → List String → UserSet
insert_all pending [] = pending
insert_all pending (user_id ∷ user_ids) = insert_all (insert user_id tt pending) user_ids

unfoldable pub mark_many : UserSet → List String → UserSet × Bool
unfolding insert_all
mark_many pending user_ids =
    let marked = insert_all pending user_ids in
    (marked, leb presence_checkpoint_batch (length marked))

abbrev pub batch : UserSet → List String
batch pending = keys pending

-- One row of the statement's `SELECT`: an instant is stored for an account that exists, and never
-- before the one that is there. The column `updated_at`, which nothing here reads, is left out.
unfoldable pub upsert_last_seen : (String → Bool) → ℤ → String → Map String ℤ → Map String ℤ
upsert_last_seen accounts now user_id table =
    if accounts user_id
    then elim (lookup user_id table) [
      | none ↦ insert user_id now table
      | some last_seen_at ↦ insert user_id (max_ℤ last_seen_at now) table
    ]
    else table

unfoldable pub save_last_seen : (String → Bool) → ℤ → List String → Map String ℤ → Map String ℤ
unfolding upsert_last_seen
save_last_seen accounts now [] table = table
save_last_seen accounts now (user_id ∷ user_ids) table =
    save_last_seen accounts now user_ids (upsert_last_seen accounts now user_id table)

-- `WHERE user_id = ANY($1)`.
unfoldable pub last_seen : List String → Map String ℤ → Map String ℤ
last_seen [] table = []
last_seen (user_id ∷ user_ids) table = elim (lookup user_id table) [
  | none ↦ last_seen user_ids table
  | some at ↦ insert user_id at (last_seen user_ids table)
]

-- The checkpoint, and the table that its store writes.
pub record PresenceState : Type 0 where
  pub checkpoint : UserSet
  pub user_presence : Map String ℤ

-- What the database says to the statement: `none` for an error, else its `now()`.
unfoldable pub accept_batch :
    (String → Bool) → List String → Option ℤ → PresenceState → PresenceState × Bool
unfolding save_last_seen
accept_batch accounts written none s = (s, false)
accept_batch accounts written (some now) s = (
  record { checkpoint = []; user_presence = save_last_seen accounts now written s.user_presence },
  true,
)

-- The Boolean is `Ok(())`.
unfoldable pub write_checkpoint :
    (String → Bool) → Option ℤ → List String → PresenceState → PresenceState × Bool
unfolding accept_batch mark_many
write_checkpoint accounts answer meanwhile s =
    if is_empty s.checkpoint
    then (s, true)
    else accept_batch accounts (batch s.checkpoint) answer
        (record s { checkpoint = (mark_many s.checkpoint meanwhile).0 })

module _ (c : Channel) where
  open c use {Queue}

  unfoldable pub broadcast_presence :
      ConnectionRegistry Queue
      → String
      → PresenceStatus
      → Option ℤ
      → Option (List String)
      → ConnectionRegistry Queue
  broadcast_presence r user_id status last_seen_ms none = r
  broadcast_presence r user_id status last_seen_ms (some audience) =
      if is_empty audience
      then r
      else (deliver c r audience (
          ServerEvent.presence
            (record { user_id = user_id; status = status; last_seen_ms = last_seen_ms }))).0

  unfoldable pub user_came_online :
      PresenceState
      → ConnectionRegistry Queue
      → String
      → Option (List String)
      → PresenceState × ConnectionRegistry Queue
  unfolding mark broadcast_presence
  user_came_online s r user_id audience = (
    record s { checkpoint = (mark s.checkpoint user_id).0 },
    broadcast_presence r user_id online none audience,
  )

  unfoldable pub user_went_offline :
      (String → Bool)
      → Option ℤ
      → List String
      → PresenceState
      → ConnectionRegistry Queue
      → String
      → Option ℤ
      → Option (List String)
      → PresenceState × ConnectionRegistry Queue
  unfolding mark write_checkpoint broadcast_presence
  user_went_offline accounts answer meanwhile s r user_id now_ms audience = (
    (write_checkpoint accounts answer meanwhile
        (record s { checkpoint = (mark s.checkpoint user_id).0 })).0,
    broadcast_presence r user_id offline now_ms audience,
  )

  -- The heartbeat's share, by a task that got the lock or not.
  unfoldable pub checkpoint_presence :
      (String → Bool)
      → Option ℤ
      → List String
      → Bool
      → PresenceState
      → ConnectionRegistry Queue
      → PresenceState
  unfolding mark_many write_checkpoint online_user_ids
  checkpoint_presence accounts answer meanwhile locked s r =
      if locked
      then (write_checkpoint accounts answer meanwhile
          (record s { checkpoint = (mark_many s.checkpoint (online_user_ids r)).0 })).0
      else s
