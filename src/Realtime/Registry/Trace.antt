-- ===== src/Realtime/Registry/Trace.antt =====
-- A whole history of registrations and removals, and what a listener hears of it.
use jiuyue.Base.{
  text_discrete, ℕ, ◌+◌, ◌≤◌, ◌<◌, String, ◌≡◌, ite, if_neg, sym, subst, not, ◌&&◌, if◌then◌else◌,
  Bool, true, false, List, [], ◌∷◌, arith, text_key, nat_key, length, refl,
}
use jiuyue.Base.Word.{u64_max}
use jiuyue.Realtime.Registry.{
  ConnectionRegistry, PresenceChange, became_online, became_offline, unchanged, register,
  unregister, is_online,
}
use jiuyue.Realtime.Registry.Invariant.{IsValid, register-IsValid, unregister-IsValid}
use jiuyue.Realtime.Registry.Presence.{register-PresenceChange, unregister-PresenceChange}

pub data Call (Q : Type 0) : Type 0 where
  registers : String → Q → Call Q
  unregisters : String → ℕ → Call Q

-- What somebody who heard `b` believes after one more report.
abbrev pub announce : Bool → PresenceChange → Bool
announce b became_online = true
announce b became_offline = false
announce b unchanged = b

-- No report tells again what its listener believes already, or takes back what was never said.
abbrev pub Alternates : Bool → List PresenceChange → Type 0
Alternates b [] = Unit {0}
Alternates b (became_online ∷ cs) = (b ≡ false) × Alternates true cs
Alternates b (became_offline ∷ cs) = (b ≡ true) × Alternates false cs
Alternates b (unchanged ∷ cs) = Alternates b cs

-- One report that changes what its listener believes.
abbrev IsNews : Bool → PresenceChange → Type 0
IsNews b became_online = b ≡ false
IsNews b became_offline = b ≡ true
IsNews b unchanged = Unit {0}

Alternates-cons :
    (b : Bool) (c : PresenceChange) (cs : List PresenceChange)
    → IsNews b c
    → Alternates (announce b c) cs
    → Alternates b (c ∷ cs)
Alternates-cons b became_online cs n a = (n, a)
Alternates-cons b became_offline cs n a = (n, a)
Alternates-cons b unchanged cs n a = a

entry-IsNews : (b : Bool) → IsNews b (if b then unchanged else became_online)
entry-IsNews true = tt
entry-IsNews false = refl

exit-IsNews : (b after : Bool) → IsNews b (if b && not after then became_offline else unchanged)
exit-IsNews true true = tt
exit-IsNews true false = refl
exit-IsNews false after = tt

Alternates-ite :
    {P : Type 0} (d : Dec P) (b : Bool) (c : PresenceChange) (cs : List PresenceChange)
    → (P → IsNews b c)
    → Alternates (ite d (announce b c) b) cs
    → Alternates b (ite d (c ∷ cs) cs)
Alternates-ite (yes p) b c cs n a = Alternates-cons b c cs (n p) a
Alternates-ite (no p) b c cs n a = a

module _ {Q : Type 0} where
  abbrev pub about : Call Q → String
  about (registers u q) = u
  about (unregisters u id) = u

  unfoldable pub step : ConnectionRegistry Q → Call Q → ConnectionRegistry Q × PresenceChange
  step r (registers u q) = let (r', id, change) = register r u q in (r', change)
  step r (unregisters u id) = unregister r u id

  unfoldable pub run : ConnectionRegistry Q → List (Call Q) → ConnectionRegistry Q
  run r [] = r
  run r (k ∷ ks) = run (step r k).0 ks

  -- The belief about one User after every report that names the User.
  unfoldable pub heard : String → Bool → ConnectionRegistry Q → List (Call Q) → Bool
  heard w b r [] = b
  heard w b r (k ∷ ks) =
      heard w (ite (text_discrete (about k) w) (announce b (step r k).1) b) (step r k).0 ks

  -- What is said of one User, in order.
  unfoldable pub reports : String → ConnectionRegistry Q → List (Call Q) → List PresenceChange
  reports w r [] = []
  reports w r (k ∷ ks) =
      let rest = reports w (step r k).0 ks in
      ite (text_discrete (about k) w) ((step r k).1 ∷ rest) rest

  step-IsValid :
      (r : ConnectionRegistry Q) (k : Call Q)
      → r.next_id < u64_max
      → IsValid r
      → IsValid (step r k).0
  unfolding step
  step-IsValid r (registers u q) room v = register-IsValid r u q room v
  step-IsValid r (unregisters u id) room v = unregister-IsValid r u id v

  step-next_id :
      (r : ConnectionRegistry Q) (k : Call Q)
      → r.next_id < u64_max
      → (step r k).0.next_id ≤ r.next_id + 1
  unfolding step register unregister
  step-next_id r (registers u q) room = omega arith
  step-next_id r (unregisters u id) room = omega arith

  step-announce :
      (r : ConnectionRegistry Q) (k : Call Q) (w : String)
      → IsValid r
      → is_online (step r k).0 w
        ≡ ite (text_discrete (about k) w) (announce (is_online r w) (step r k).1) (is_online r w)
  unfolding step
  step-announce r (registers u q) w v = ground (arith, register-PresenceChange r u w q v)
  step-announce r (unregisters u id) w v = elim (text_discrete u w) [
    | yes p ↦
        ground (arith, unregister-PresenceChange r u w id v, unregister-PresenceChange r u u id v)
    | no p ↦ rw (if_neg _ p) ((unregister-PresenceChange r u w id v).2 p)
  ]

  step-IsNews :
      (r : ConnectionRegistry Q) (k : Call Q)
      → IsValid r
      → IsNews (is_online r (about k)) (step r k).1
  unfolding step
  step-IsNews r (registers u q) v =
      subst (IsNews (is_online r u)) (sym (register-PresenceChange r u u q v).0)
        (entry-IsNews (is_online r u))
  step-IsNews r (unregisters u id) v =
      subst (IsNews (is_online r u)) (sym (unregister-PresenceChange r u u id v).0)
        (exit-IsNews (is_online r u) (is_online (unregister r u id).0 u))

  reports-Alternates :
      (ks : List (Call Q)) (r : ConnectionRegistry Q) (w : String)
      → IsValid r
      → r.next_id + length ks ≤ u64_max
      → Alternates (is_online r w) (reports w r ks)
  unfolding reports
  reports-Alternates [] r w v room = tt
  reports-Alternates (k ∷ ks) r w v room =
      Alternates-ite (text_discrete (about k) w) (is_online r w) (step r k).1
        (reports w (step r k).0 ks)
        (λ p. subst (λ u. IsNews (is_online r u) (step r k).1) p (step-IsNews r k v))
        (subst (λ b. Alternates b (reports w (step r k).0 ks)) (step-announce r k w v)
          (reports-Alternates ks (step r k).0 w (step-IsValid r k (omega arith) v)
            (omega (arith, step-next_id r k))))

  belief_right :
      (ks : List (Call Q)) (r : ConnectionRegistry Q) (w : String)
      → IsValid r
      → r.next_id + length ks ≤ u64_max
      → heard w (is_online r w) r ks ≡ is_online (run r ks) w
  unfolding heard run
  belief_right [] r w v room = refl
  belief_right (k ∷ ks) r w v room =
      rw (← step-announce r k w, v)
        (belief_right ks (step r k).0 w (step-IsValid r k (omega arith) v)
          (omega (arith, step-next_id r k)))

  -- After any history that starts valid and cannot exhaust the ids, who listened to every report
  -- about a User knows exactly whether the User is reachable. No report is doubled or out of place:
  -- that a User came online is said only while it was not so, and that the User went only while the
  -- User was there.
  pub heard-is_online :
      (ks : List (Call Q)) (r : ConnectionRegistry Q) (w : String)
      → IsValid r
      → r.next_id + length ks ≤ u64_max
      → (heard w (is_online r w) r ks ≡ is_online (run r ks) w)
        × Alternates (is_online r w) (reports w r ks)
  heard-is_online ks r w v room = (belief_right ks r w v room, reports-Alternates ks r w v room)
