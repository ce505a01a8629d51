-- ===== src/Realtime/Registry/Presence.antt =====
-- What the registry reports against who is connected: the changes of presence that `register`
-- and `unregister` return, and the registry seen as a set of connections.
use jiuyue.Base.{
  ℕ, ◌≡◌, refl, String, true, not, ◌==◌, Option, none, some, [], ◌∷◌, ite, is_some, length, arith,
  text_discrete, text_key, nat_key, if◌then◌else◌, Bool, false, ℕ_discrete, is_empty, ◌&&◌, ◌≢◌,
  Option-cases, inl, inr,
}
use jiuyue.Base.Map.{
  Map, lookup, insert, lookup-insert, length-insert, contains_key, lookup-remove, remove_absent,
  remove,
}
use jiuyue.Realtime.Registry.{
  ConnectionRegistry, became_online, unchanged, or_default, register, is_online, unregister,
  became_offline,
}
use jiuyue.Realtime.Registry.Laws.{ValidSessions, lookup_fresh}
use jiuyue.Realtime.Registry.Invariant.{IsValid, drained, lookup-unregister}

module _ {Q : Type 0} where
  lookup-register :
      (r : ConnectionRegistry Q) (u w : String) (q : Q)
      → lookup w (register r u q).0.connections
        ≡ ite
            (text_discrete u w)
            (some (insert r.next_id q (or_default (lookup u r.connections))))
            (lookup w r.connections)
  unfolding register
  lookup-register r u w q = lookup-insert u w _ r.connections

  fresh_session :
      (n : ℕ) (o : Option (Map ℕ Q)) → ValidSessions n o → lookup n (or_default o) ≡ none
  unfolding lookup
  fresh_session n none v = refl
  fresh_session n (some m) v = lookup_fresh n m v.2

  first_session :
      (n : ℕ) (q : Q) (o : Option (Map ℕ Q))
      → ValidSessions n o
      → (length (insert n q (or_default o)) == 1) ≡ not (is_some o)
  first_session n q none v = ground (arith, length-insert {V = Q} n q [], fresh_session n none v)
  first_session n q (some []) v = ground arith
  first_session n q (some (e ∷ m)) v =
      ground (arith, length-insert n q (e ∷ m), fresh_session n (some (e ∷ m)) v)

  -- A registration makes its User reachable and nobody else, and reports the change exactly when
  -- the User was not reachable before.
  pub register-PresenceChange :
      (r : ConnectionRegistry Q) (u w : String) (q : Q)
      → IsValid r
      → ((register r u q).2 ≡ (if is_online r u then unchanged else became_online))
        × (is_online (register r u q).0 w ≡ ite (text_discrete u w) true (is_online r w))
  unfolding register is_online
  register-PresenceChange r u w q v = (
    ground (arith, first_session r.next_id q (lookup u r.connections) (v.sessions u)),
    ground (arith, lookup-register r u w q),
  )

  -- A removal reports that the User went offline exactly when the User was reachable before and is
  -- not afterwards, makes nobody reachable, and leaves every other User as they were.
  pub unregister-PresenceChange :
      (r : ConnectionRegistry Q) (u w : String) (id : ℕ)
      → IsValid r
      → ((unregister r u id).1 ≡ (
          if is_online r u && not (is_online (unregister r u id).0 u)
          then became_offline
          else unchanged))
        × (is_online (unregister r u id).0 w ≡ true → is_online r w ≡ true)
        × (u ≢ w → is_online (unregister r u id).0 w ≡ is_online r w)
  unfolding unregister is_online
  unregister-PresenceChange r u w id v = (
    change,
    λ on. ground (arith, lookup-unregister r u w id),
    λ ne. ground (arith, lookup-unregister r u w id),
  )
    where
      change : (unregister r u id).1 ≡ (
          if is_online r u && not (is_online (unregister r u id).0 u)
          then became_offline
          else unchanged)
      change = elim (Option-cases (lookup u r.connections)) [
        | inl e ↦ ground arith
        | inr (m, e) ↦ ground (arith, lookup-unregister r u u id, v.sessions u, remove_absent id m)
      ]

  -- The registry as a set of pairs of a User and a connection.
  abbrev pub connected : ConnectionRegistry Q → String → ℕ → Bool
  connected r u id = contains_key id (or_default (lookup u r.connections))

  -- A registration adds one pair of a User and a connection, under an id that no User had.
  pub register-connected :
      (r : ConnectionRegistry Q) (u w : String) (q : Q) (id : ℕ)
      → IsValid r
      → (connected r w (register r u q).1 ≡ false)
        × (connected (register r u q).0 w id
            ≡ ite
                (text_discrete u w)
                (ite (ℕ_discrete (register r u q).1 id) true (connected r w id))
                (connected r w id))
  unfolding register
  register-connected r u w q id v = (
    ground (arith, fresh_session r.next_id (lookup w r.connections) (v.sessions w)),
    ground (
      arith,
      lookup-register r u w q,
      lookup-insert r.next_id id q (or_default (lookup u r.connections)),
    ),
  )

  drained-lookup :
      (id j : ℕ) (o : Option (Map ℕ Q))
      → lookup j (or_default (drained id o)) ≡ ite (ℕ_discrete id j) none (lookup j (or_default o))
  unfolding lookup
  drained-lookup id j none = ground arith
  drained-lookup id j (some m) = ground (arith, lookup-remove id j m, emptied (remove id m))
    where
      emptied : (k : Map ℕ Q) → is_empty k ≡ true → lookup j k ≡ none
      emptied [] e = refl
      emptied (x ∷ k) e = cc

  -- A removal takes one pair of a User and a connection out and leaves all other pairs.
  pub unregister-connected :
      (r : ConnectionRegistry Q) (u w : String) (id j : ℕ)
      → connected (unregister r u id).0 w j
        ≡ ite (text_discrete u w) (ite (ℕ_discrete id j) false (connected r w j)) (connected r w j)
  unregister-connected r u w id j =
      ground (arith, lookup-unregister r u w id, drained-lookup id j (lookup u r.connections))
