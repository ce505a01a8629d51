-- ===== src/Realtime/Registry/Invariant.antt =====
-- What holds of the registry between two calls: no User stands twice, no User stands without a
-- connection, and every id was handed out before.
use jiuyue.Base.{
  ℕ, ◌+◌, ◌<◌, ◌≤◌, ◌≡◌, refl, String, Option, none, some, [], ite, is_empty, arith, inl, inr,
  Option-cases, text_discrete, nat_key, text_key, if_pos, if_neg, if◌then◌else◌,
}
use jiuyue.Base.Map.{
  Map, lookup, insert, remove, Distinct, lookup-insert, lookup-remove, insert-Distinct,
  remove-Distinct,
}
use jiuyue.Base.Word.{u64_max, wrapping_add64}
use jiuyue.Realtime.Registry.{ConnectionRegistry, or_default, new, register, unregister}
use jiuyue.Realtime.Registry.Laws.{
  ValidSessions, Below-mono, insert-Below, remove-Below, is_empty-insert,
}

pub wrap-next_id : (n : ℕ) → n < u64_max → wrapping_add64 n 1 ≡ n + 1
wrap-next_id n h = omega arith

module _ {Q : Type 0} where
  pub record IsValid (r : ConnectionRegistry Q) : Type 0 where
    pub distinct : Distinct r.connections
    pub sessions : (u : String) → ValidSessions r.next_id (lookup u r.connections)

  pub new-IsValid : IsValid (new {Q = Q})
  unfolding new lookup
  new-IsValid = record { distinct = tt; sessions = λ u. tt }

  ValidSessions-mono :
      (n k : ℕ) (o : Option (Map ℕ Q)) → n ≤ k → ValidSessions n o → ValidSessions k o
  ValidSessions-mono n k none h v = tt
  ValidSessions-mono n k (some m) h v = (v.0, v.1, Below-mono n k m h v.2)

  insert-ValidSessions :
      (n : ℕ) (q : Q) (o : Option (Map ℕ Q))
      → ValidSessions n o
      → ValidSessions (n + 1) (some (insert n q (or_default o)))
  insert-ValidSessions n q none v = (
    is_empty-insert n q [],
    insert-Distinct n q [] tt,
    insert-Below (n + 1) n q [] (omega arith) tt,
  )
  insert-ValidSessions n q (some m) v = (
    is_empty-insert n q m,
    insert-Distinct n q m v.1,
    insert-Below (n + 1) n q m (omega arith) (Below-mono n (n + 1) m (omega arith) v.2),
  )

  pub register-IsValid :
      (r : ConnectionRegistry Q) (u : String) (q : Q)
      → r.next_id < u64_max
      → IsValid r
      → IsValid (register r u q).0
  unfolding register
  register-IsValid r u q room v =
      rw (wrap-next_id, room)
        (record {
          distinct = insert-Distinct u _ r.connections v.distinct;
          sessions = λ w. rw lookup-insert (elim (text_discrete u w) [
            | yes p ↦ rw (if_pos _ p) (insert-ValidSessions r.next_id q _ (v.sessions u))
            | no p ↦ rw (if_neg _ p) (ValidSessions-mono r.next_id _ _ (omega arith) (v.sessions w))
          ]);
        })

  -- A User's entry after one of their connections is forgotten.
  abbrev pub drained : ℕ → Option (Map ℕ Q) → Option (Map ℕ Q)
  drained id none = none
  drained id (some m) = if is_empty (remove id m) then none else some (remove id m)

  pub lookup-unregister :
      (r : ConnectionRegistry Q) (u w : String) (id : ℕ)
      → lookup w (unregister r u id).0.connections
        ≡ ite (text_discrete u w) (drained id (lookup u r.connections)) (lookup w r.connections)
  unfolding unregister
  lookup-unregister r u w id = elim (Option-cases (lookup u r.connections)) [
    | inl e ↦ ground arith
    | inr (m, e) ↦ ground (
      arith,
      lookup-insert u w (remove id m) r.connections,
      lookup-remove u w (insert u (remove id m) r.connections),
    )
  ]

  drained-ValidSessions :
      (n id : ℕ) (o : Option (Map ℕ Q)) → ValidSessions n o → ValidSessions n (drained id o)
  drained-ValidSessions n id none v = tt
  drained-ValidSessions n id (some m) v =
      ground (arith, remove-Distinct id m v.1, remove-Below n id m v.2)

  unregister-Distinct :
      (r : ConnectionRegistry Q) (u : String) (id : ℕ)
      → Distinct r.connections
      → Distinct (unregister r u id).0.connections
  unfolding unregister
  unregister-Distinct r u id v = elim (Option-cases (lookup u r.connections)) [
    | inl e ↦ ground arith
    | inr (m, e) ↦ ground (
      arith,
      insert-Distinct u (remove id m) r.connections v,
      remove-Distinct u (insert u (remove id m) r.connections),
    )
  ]

  next_id-unregister :
      (r : ConnectionRegistry Q) (u : String) (id : ℕ) → (unregister r u id).0.next_id ≡ r.next_id
  unfolding unregister
  next_id-unregister r u id = refl

  pub unregister-IsValid :
      (r : ConnectionRegistry Q) (u : String) (id : ℕ) → IsValid r → IsValid (unregister r u id).0
  unregister-IsValid r u id v = record {
    distinct = unregister-Distinct r u id v.distinct;
    sessions = λ w.
        rw (lookup-unregister, next_id-unregister r u id)
          (elim (text_discrete u w) [
            | yes p ↦ rw (if_pos _ p) (drained-ValidSessions r.next_id id _ (v.sessions u))
            | no p ↦ rw (if_neg _ p) (v.sessions w)
          ]);
  }
