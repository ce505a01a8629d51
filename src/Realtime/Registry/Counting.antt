-- ===== src/Realtime/Registry/Counting.antt =====
-- A delivery keeps the registry well formed, and returns how many events it queued.
use jiuyue.Base.{
  Option-cases, text_discrete, is_empty, ℕ, String, ◌≡◌, refl, inl, inr, if_pos, if_neg, false,
  some, List, [], ◌∷◌, arith, text_key, nat_key, length, ◌+◌, ap, length-append,
}
use jiuyue.Base.Map.{Map, lookup, Distinct, lookup-insert, insert-Distinct, insert}
use jiuyue.Contract.{ServerEvent}
use jiuyue.Realtime.Registry.{
  Channel, TrySend, accepted, full, closed, ConnectionRegistry, send_all, deliver_user, deliver,
  count_sent,
}
use jiuyue.Realtime.Registry.Laws.{ValidSessions, Below}
use jiuyue.Realtime.Registry.Invariant.{IsValid}
use jiuyue.Realtime.Registry.Delivery.{pushed, lookup-send_all}

module _ (c : Channel) where
  open c use {Queue, contents, try_send, contents-accepted, contents-refused}

  send_all-ValidSessions :
      (n : ℕ) (m : Map ℕ Queue) (event : ServerEvent)
      → ValidSessions n (some m)
      → ValidSessions n (some (send_all c m event).0)
  unfolding send_all
  send_all-ValidSessions n m event v = (busy m v.0, apart m v.1, below m v.2)
    where
      busy : (k : Map ℕ Queue) → is_empty k ≡ false → is_empty (send_all c k event).0 ≡ false
      busy [] e = e
      busy (x ∷ k) e = refl

      apart : (k : Map ℕ Queue) → Distinct k → Distinct (send_all c k event).0
      apart [] d = tt
      apart ((id, q) ∷ k) d = (rw (lookup-send_all c k event id, d.0), apart k d.1)

      below : (k : Map ℕ Queue) → Below n k → Below n (send_all c k event).0
      below [] b = tt
      below ((id, q) ∷ k) b = (b.0, below k b.1)

  deliver_user-IsValid :
      (r : ConnectionRegistry Queue) (u : String) (event : ServerEvent)
      → IsValid r
      → IsValid (deliver_user c r u event).0
  unfolding deliver_user
  deliver_user-IsValid r u event v = elim (Option-cases (lookup u r.connections)) [
    | inl e ↦ rw (e, deliver_user) v
    | inr (m, e) ↦
        rw (e, deliver_user)
          (record {
            distinct = insert-Distinct u _ r.connections v.distinct;
            sessions = λ w. rw lookup-insert (elim (text_discrete u w) [
              | yes p ↦
                  rw (if_pos _ p)
                    (send_all-ValidSessions r.next_id m event (rw e at (v.sessions u)))
              | no p ↦ rw (if_neg _ p) (v.sessions w)
            ]);
          })
  ]

  pub deliver-IsValid :
      (r : ConnectionRegistry Queue) (users : List String) (event : ServerEvent)
      → IsValid r
      → IsValid (deliver c r users event).0
  unfolding deliver
  deliver-IsValid r [] event v = v
  deliver-IsValid r (u ∷ us) event v =
      deliver-IsValid (deliver_user c r u event).0 us event (deliver_user-IsValid r u event v)

  -- How many events wait in the queues of one User, and in all.
  abbrev pub waiting : Map ℕ Queue → ℕ
  waiting [] = 0
  waiting ((id, q) ∷ m) = length (contents q) + waiting m

  abbrev pub waiting_all : Map String (Map ℕ Queue) → ℕ
  waiting_all [] = 0
  waiting_all ((u, m) ∷ ms) = waiting m + waiting_all ms

  waiting-try_send :
      (q : Queue) (event : ServerEvent)
      → length (contents (pushed c event q)) ≡ count_sent (try_send q event).1 (length (contents q))
  waiting-try_send q event = go (try_send q event).1 refl
    where
      go :
          (o : TrySend)
          → (try_send q event).1 ≡ o
          → length (contents (pushed c event q)) ≡ count_sent o (length (contents q))
      go accepted e =
          omega (
            arith,
            ap length (contents-accepted q event e),
            length-append (contents q) (event ∷ []),
          )
      go full e = ap length (contents-refused q event (λ a. cc))
      go closed e = ap length (contents-refused q event (λ a. cc))

  waiting-send_all :
      (m : Map ℕ Queue) (event : ServerEvent)
      → waiting (send_all c m event).0 ≡ waiting m + (send_all c m event).1
  unfolding send_all
  waiting-send_all [] event = omega arith
  waiting-send_all ((id, q) ∷ m) event =
      ground (arith, waiting-send_all m event, waiting-try_send q event)

  waiting-insert :
      (u : String) (m k : Map ℕ Queue) (ms : Map String (Map ℕ Queue))
      → lookup u ms ≡ some m
      → waiting_all (insert u k ms) + waiting m ≡ waiting_all ms + waiting k
  unfolding lookup insert
  waiting-insert u m k [] e = cc
  waiting-insert u m k ((v, w) ∷ ms) e = ground (arith, waiting-insert u m k ms)

  waiting-deliver_user :
      (r : ConnectionRegistry Queue) (u : String) (event : ServerEvent)
      → waiting_all (deliver_user c r u event).0.connections
        ≡ waiting_all r.connections + (deliver_user c r u event).1
  unfolding deliver_user
  waiting-deliver_user r u event = elim (Option-cases (lookup u r.connections)) [
    | inl e ↦ rw (e, deliver_user) (omega arith)
    | inr (m, e) ↦
        rw (e, deliver_user)
          (omega (
            arith,
            waiting-insert u m (send_all c m event).0 r.connections e,
            waiting-send_all m event,
          ))
  ]

  -- The number that `deliver` returns is exactly by how much the events that wait in all queues
  -- together have grown.
  waiting-deliver :
      (r : ConnectionRegistry Queue) (users : List String) (event : ServerEvent)
      → waiting_all (deliver c r users event).0.connections
        ≡ waiting_all r.connections + (deliver c r users event).1
  unfolding deliver
  waiting-deliver r [] event = omega arith
  waiting-deliver r (u ∷ us) event =
      omega (
        arith,
        waiting-deliver (deliver_user c r u event).0 us event,
        waiting-deliver_user r u event,
      )
