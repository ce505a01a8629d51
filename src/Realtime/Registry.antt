-- ===== src/Realtime/Registry.antt =====
-- backend/crates/realtime/src/registry.rs: every live connection, keyed by the User that it
-- authenticated as. The operations run under the registry's lock, so each is one step.
-- The bounded channel of a connection is tokio's: it enters as `Channel`.
pub mod Laws
pub mod Delivery
pub mod Counting
pub mod Invariant
pub mod Presence
pub mod Trace
pub mod Tests
use jiuyue.Base.{
  ℕ, ◌+◌, ◌≡◌, ◌≢◌, String, Bool, true, false, Option, none, some, List, [], ◌∷◌, ◌++◌, ◌&&◌, ◌==◌,
  if◌then◌else◌, length, is_some, is_empty, text_key, nat_key,
}
use jiuyue.Base.Map.{Map, keys, lookup, insert, remove, contains_key}
use jiuyue.Base.Word.{wrapping_add64}
use jiuyue.Contract.{ServerEvent}

-- The outcome of `mpsc::Sender::try_send`.
pub data TrySend : Type 0 where
  accepted full closed : TrySend

-- A bounded channel seen from its only sender: what waits in it, and a send that never blocks.
-- Documented of `try_send`: an accepted value is queued behind the others, a refused one is not.
pub record Channel : Type 1 where
  pub Queue : Type 0
  pub contents : Queue → List ServerEvent
  pub try_send : Queue → ServerEvent → Queue × TrySend
  pub contents-accepted :
      (q : Queue) (e : ServerEvent)
      → (try_send q e).1 ≡ accepted
      → contents (try_send q e).0 ≡ contents q ++ e ∷ []
  pub contents-refused :
      (q : Queue) (e : ServerEvent)
      → (try_send q e).1 ≢ accepted
      → contents (try_send q e).0 ≡ contents q

pub data PresenceChange : Type 0 where
  became_online became_offline unchanged : PresenceChange

module _ (Q : Type 0) where
  -- `HashMap<ConnectionId, mpsc::Sender<ServerEvent>>`.
  abbrev pub Sessions : Type 0
  Sessions = Map ℕ Q

  pub record ConnectionRegistry : Type 0 where
    pub connections : Map String (Map ℕ Q)
    pub next_id : ℕ

module _ {Q : Type 0} where
  unfoldable pub new : ConnectionRegistry Q
  new = record { connections = []; next_id = 0 }

  -- `entry(user_id).or_default()`: the User's sessions, none if there is no entry.
  abbrev pub or_default : Option (Map ℕ Q) → Map ℕ Q
  or_default none = []
  or_default (some sessions) = sessions

  unfoldable pub register :
      ConnectionRegistry Q → String → Q → ConnectionRegistry Q × ℕ × PresenceChange
  register r user_id sender =
      let id = r.next_id in
      let sessions = insert id sender (or_default (lookup user_id r.connections)) in
      (
        record {
          connections = insert user_id sessions r.connections;
          next_id = wrapping_add64 r.next_id 1;
        },
        id,
        (if length sessions == 1 then became_online else unchanged),
      )

  -- The `get_mut` block: the map with the connection gone, and the two flags.
  unfoldable pub drop_session :
      Map String (Map ℕ Q) → String → ℕ → Option (Map ℕ Q) → Map String (Map ℕ Q) × Bool × Bool
  drop_session connections user_id id none = (connections, false, false)
  drop_session connections user_id id (some sessions) =
      let left = remove id sessions in
      (insert user_id left connections, is_some (lookup id sessions), is_empty left)

  unfoldable pub unregister :
      ConnectionRegistry Q → String → ℕ → ConnectionRegistry Q × PresenceChange
  unfolding drop_session
  unregister r user_id id =
      let (connections, removed, became_empty) =
        drop_session r.connections user_id id (lookup user_id r.connections) in
      (
        record r { connections = if became_empty then remove user_id connections else connections },
        (if removed && became_empty then became_offline else unchanged),
      )

  unfoldable pub is_online : ConnectionRegistry Q → String → Bool
  is_online r user_id = contains_key user_id r.connections

  unfoldable pub online_user_ids : ConnectionRegistry Q → List String
  online_user_ids r = keys r.connections

  unfoldable pub user_connection_count : ConnectionRegistry Q → String → ℕ
  user_connection_count r user_id = length (or_default (lookup user_id r.connections))

-- `Ok(()) => delivered += 1`; the two refusals change nothing but the log.
abbrev pub count_sent : TrySend → ℕ → ℕ
count_sent accepted n = n + 1
count_sent full n = n
count_sent closed n = n

module _ (c : Channel) where
  open c use {Queue, try_send}

  -- The inner loop of `deliver`: one `try_send` to each connection of a User.
  unfoldable pub send_all : Map ℕ Queue → ServerEvent → Map ℕ Queue × ℕ
  send_all [] event = ([], 0)
  send_all ((id, q) ∷ sessions) event =
      let (q', outcome) = try_send q event in
      let (sessions', n) = send_all sessions event in ((id, q') ∷ sessions', count_sent outcome n)

  -- One User of the list: `let Some(sessions) = ... else { continue }`.
  unfoldable pub deliver_user :
      ConnectionRegistry Queue → String → ServerEvent → ConnectionRegistry Queue × ℕ
  unfolding send_all
  deliver_user r user_id event = elim (lookup user_id r.connections) [
    | none ↦ (r, 0)
    | some sessions ↦
        let (sessions', n) = send_all sessions event in
        (record r { connections = insert user_id sessions' r.connections }, n)
  ]

  unfoldable pub deliver :
      ConnectionRegistry Queue → List String → ServerEvent → ConnectionRegistry Queue × ℕ
  unfolding deliver_user
  deliver r [] event = (r, 0)
  deliver r (user_id ∷ user_ids) event =
      let (r', n) = deliver_user r user_id event in
      let (r'', m) = deliver r' user_ids event in (r'', n + m)
