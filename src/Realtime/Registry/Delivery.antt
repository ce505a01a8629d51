-- ===== src/Realtime/Registry/Delivery.antt =====
-- Who receives a delivered event: each connection of a listed User gets one `try_send` for each
-- time the User is listed, and nobody else's queue changes.
use jiuyue.Base.{
  Option-cases, text_discrete, ℕ, zero, suc, String, ◌≡◌, refl, inl, inr, ite, Option, some, List,
  [], ◌∷◌, ◌++◌, arith, text_key, nat_key, ◌∙◌, ◌∙◌,
}
use jiuyue.Base.Map.{Map, lookup, lookup-insert}
use mathlib.Core.Option
use jiuyue.Contract.{ServerEvent}
use jiuyue.Realtime.Registry.{
  Channel, TrySend, accepted, full, closed, ConnectionRegistry, or_default, send_all, deliver_user,
  deliver,
}

module _ (c : Channel) where
  open c use {Queue, contents, try_send, contents-accepted, contents-refused}

  -- One attempt on one queue, the result dropped.
  abbrev pub pushed : ServerEvent → Queue → Queue
  pushed event q = (try_send q event).0

  -- `n` attempts in a row.
  abbrev pub pushes : ServerEvent → ℕ → Queue → Queue
  pushes event zero q = q
  pushes event (suc n) q = pushes event n (pushed event q)

  -- How often a User stands in the list of recipients.
  abbrev pub times : String → List String → ℕ
  times u [] = 0
  times u (v ∷ vs) = ite (text_discrete v u) (suc (times u vs)) (times u vs)

  pub lookup-send_all :
      (sessions : Map ℕ Queue) (event : ServerEvent) (id : ℕ)
      → lookup id (send_all c sessions event).0 ≡ Option.map (pushed event) (lookup id sessions)
  unfolding lookup send_all
  lookup-send_all [] event id = refl
  lookup-send_all ((j, q) ∷ m) event id = ground (arith, lookup-send_all m event id)

  -- The queue of one connection of one User.
  abbrev pub queue : ConnectionRegistry Queue → String → ℕ → Option Queue
  queue r u id = lookup id (or_default (lookup u r.connections))

  queue-deliver_user :
      (r : ConnectionRegistry Queue) (v u : String) (event : ServerEvent) (id : ℕ)
      → queue (deliver_user c r v event).0 u id
        ≡ ite (text_discrete v u) (Option.map (pushed event) (queue r u id)) (queue r u id)
  unfolding deliver_user lookup
  queue-deliver_user r v u event id = elim (Option-cases (lookup v r.connections)) [
    | inl e ↦ ground arith
    | inr (m, e) ↦
        ground (
          arith,
          lookup-insert v u (send_all c m event).0 r.connections,
          lookup-send_all m event id,
        )
  ]

  -- A delivery makes, on the queue of each connection, one `try_send` for each time its User is
  -- listed, and none on a queue of anybody else.
  pub queue-deliver :
      (r : ConnectionRegistry Queue) (users : List String) (u : String) (event : ServerEvent)
      (id : ℕ)
      → queue (deliver c r users event).0 u id
        ≡ Option.map (pushes event (times u users)) (queue r u id)
  unfolding deliver
  queue-deliver r [] u event id = elim (Option-cases (queue r u id)) [
    | inl e ↦ rw e
    | inr (q, e) ↦ rw e
  ]
  queue-deliver r (v ∷ vs) u event id = ground (
    arith,
    queue-deliver (deliver_user c r v event).0 vs u event id,
    queue-deliver_user r v u event id,
  )

  pub queue-deliver_absent :
      (r : ConnectionRegistry Queue) (users : List String) (u : String) (event : ServerEvent)
      (id : ℕ)
      → times u users ≡ 0
      → queue (deliver c r users event).0 u id ≡ queue r u id
  queue-deliver_absent r users u event id h =
      queue-deliver r users u event id
      ∙ elim (Option-cases (queue r u id)) [ inl e ↦ rw (h, e) | inr (q, e) ↦ rw (h, e) ]

  -- What waits for a connection: after a delivery, the old contents and then at most as many copies
  -- of the event as its User was listed.
  pub data Extends (event : ServerEvent) : ℕ → List ServerEvent → List ServerEvent → Type 0 where
    same : (n : ℕ) (es : List ServerEvent) → Extends event n es es
    more :
        (n : ℕ) (es fs : List ServerEvent)
        → Extends event n (es ++ event ∷ []) fs
        → Extends event (suc n) es fs

  raise :
      {event : ServerEvent} (n : ℕ) {es fs : List ServerEvent}
      → Extends event n es fs
      → Extends event (suc n) es fs
  raise _ (same n es) = same (suc n) es
  raise _ (more n es fs h) = more (suc n) es fs (raise n h)

  pushed-Extends :
      (event : ServerEvent) (n : ℕ) (q : Queue) (fs : List ServerEvent)
      → Extends event n (contents (pushed event q)) fs
      → Extends event (suc n) (contents q) fs
  pushed-Extends event n q fs h = go (try_send q event).1 refl
    where
      go : (o : TrySend) → (try_send q event).1 ≡ o → Extends event (suc n) (contents q) fs
      go accepted e = more n _ fs (rw (contents-accepted q event e) at h)
      go full e = raise n (rw (contents-refused q event (λ a. cc)) at h)
      go closed e = raise n (rw (contents-refused q event (λ a. cc)) at h)

  pushes-Extends :
      (event : ServerEvent) (n : ℕ) (q : Queue)
      → Extends event n (contents q) (contents (pushes event n q))
  pushes-Extends event zero q = same 0 (contents q)
  pushes-Extends event (suc n) q =
      pushed-Extends event n q _ (pushes-Extends event n (pushed event q))

  -- A connection of a User listed `n` times is still there after the delivery, and its queue is
  -- what it was with at most `n` copies of the event behind; if the User is not listed, `n` is zero
  -- and the queue is untouched.
  pub deliver-Extends :
      (r : ConnectionRegistry Queue) (users : List String) (u : String) (event : ServerEvent)
      (id : ℕ) (q : Queue)
      → queue r u id ≡ some q
      → (q' : Queue) × (queue (deliver c r users event).0 u id ≡ some q')
        × Extends event (times u users) (contents q) (contents q')
        × (times u users ≡ 0 → q' ≡ q)
  deliver-Extends r users u event id q e = (
    pushes event (times u users) q,
    rw (queue-deliver, e) refl,
    pushes-Extends event (times u users) q,
    λ none_listed. rw none_listed refl,
  )
