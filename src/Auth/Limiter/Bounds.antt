-- ===== src/Auth/Limiter/Bounds.antt =====
-- The bounded memory of the limiter: what making room leaves, and how many sources are tracked.
use jiuyue.Base.{
  leb, Bool-cases, Option-cases, length, ℕ, zero, suc, ◌≤◌, ◌<◌, max, String, ◌≡◌, refl, subst, ◌∙◌,
  ◌⊎◌, inl, inr, true, not, Option, none, some, List, [], ◌∷◌, arith, text_key, nat_key,
}
use jiuyue.Base.Map.{
  Map, retain, lookup, remove, contains_key, Distinct, lookup-remove, length-insert, length-remove,
  insert-Distinct, remove-Distinct, lookup-retain, retain-Distinct,
}
use mathlib.Core.Option.{some-injective}
use jiuyue.Auth.Limiter.Policy.{LoginAttemptPolicy, sanitized, IsSanitized, sanitized-IsSanitized}
use jiuyue.Auth.Limiter.Attempt
use jiuyue.Auth.Limiter.Attempt.{AttemptRecord, is_stale}
use jiuyue.Auth.Limiter.Store
use jiuyue.Auth.Limiter.Store.{
  InProcessLoginAttemptStore, tracked_sources, colder, coldest, evict, make_room, verdict, or_new,
  record_failure, record_success,
}

colder-Present :
    (k : String) (r : AttemptRecord) (m : Map String AttemptRecord)
    (o : Option (String × AttemptRecord))
    → ((e : String × AttemptRecord) → o ≡ some e → contains_key e.0 m ≡ true)
    → contains_key (colder (k, r) o).0 ((k, r) ∷ m) ≡ true
unfolding lookup
colder-Present k r m none h = ground arith
colder-Present k r m (some e) h = ground (arith, h e refl)

coldest-Present :
    (m : Map String AttemptRecord) (e : String × AttemptRecord)
    → coldest m ≡ some e
    → contains_key e.0 m ≡ true
unfolding coldest
coldest-Present [] e h = cc
coldest-Present ((k, r) ∷ m) e h =
    subst (λ e'. contains_key e'.0 ((k, r) ∷ m) ≡ true) (some-injective _ _ h)
      (colder-Present k r m (coldest m) (coldest-Present m))

coldest_exists : (m : Map String AttemptRecord) → coldest m ≡ none → m ≡ []
unfolding coldest
coldest_exists [] h = refl
coldest_exists (e ∷ m) h = cc

-- Enough turns leave room for one more.
evict-bounded :
    (cap n : ℕ) (m : Map String AttemptRecord)
    → 1 ≤ cap
    → Distinct m
    → length m ≤ n
    → (length (evict cap n m) < cap) × Distinct (evict cap n m)
unfolding evict
evict-bounded cap zero m c d h = (omega arith, d)
evict-bounded cap (suc n) m c d h = elim (Bool-cases (leb cap (length m))) [
  | inl full ↦
      rw (full, evict)
        (elim (Option-cases (coldest m)) [
          | inl empty ↦ absurd (ground (arith, coldest_exists m empty))
          | inr (e, found) ↦ rw found (
              evict-bounded cap n (remove e.0 m) c (remove-Distinct e.0 m d)
                (ground (arith, length-remove e.0 m d, coldest-Present m e found)))
        ])
  | inr room ↦ rw (room, evict) (ground (arith), d)
]

-- Eviction only takes entries out.
lookup-evict :
    (cap n : ℕ) (k : String) (m : Map String AttemptRecord)
    → (lookup k (evict cap n m) ≡ lookup k m) ⊎ (lookup k (evict cap n m) ≡ none)
unfolding evict
lookup-evict cap zero k m = inl refl
lookup-evict cap (suc n) k m = elim (Bool-cases (leb cap (length m))) [
  | inl full ↦
      rw (full, evict)
        (elim (Option-cases (coldest m)) [
          | inl empty ↦ rw empty (inl refl)
          | inr (e, found) ↦
              rw found (ground (arith, lookup-evict cap n k (remove e.0 m), lookup-remove e.0 k m))
        ])
  | inr room ↦ rw (room, evict) (inl refl)
]

pub make_room-bounded :
    (m : Map String AttemptRecord) (now : ℕ) (p : LoginAttemptPolicy)
    → 1 ≤ p.max_tracked_sources
    → Distinct m
    → (length (make_room m now p) < p.max_tracked_sources) × Distinct (make_room m now p)
unfolding make_room
make_room-bounded m now p c d =
    let live = retain (λ _ r. not (is_stale r now p)) m in
    ground (
      arith,
      evict-bounded p.max_tracked_sources (length live) live c (retain-Distinct _ m d)
          (omega arith),
    )

pub lookup-make_room :
    (m : Map String AttemptRecord) (now : ℕ) (p : LoginAttemptPolicy) (k : String)
    → Distinct m
    → (lookup k (make_room m now p) ≡ lookup k m) ⊎ (lookup k (make_room m now p) ≡ none)
unfolding make_room
lookup-make_room m now p k d =
    let live = retain (λ _ r. not (is_stale r now p)) m in
    ground (
      arith,
      lookup-evict p.max_tracked_sources (length live) k live,
      lookup-retain (λ _ r. not (is_stale r now p)) k m d,
    )

pub record IsValid (s : InProcessLoginAttemptStore) : Type 0 where
  pub policy : IsSanitized s.policy
  pub distinct : Distinct s.sources
  pub bounded : length s.sources ≤ s.policy.max_tracked_sources

pub new-IsValid : (p : LoginAttemptPolicy) → IsValid (Store.new p)
unfolding Store.new
new-IsValid p = record { policy = sanitized-IsSanitized p; distinct = tt; bounded = omega arith }

pub verdict-IsValid :
    (s : InProcessLoginAttemptStore) (source : String) (now : ℕ)
    → IsValid s
    → IsValid (verdict s source now).0
unfolding verdict
verdict-IsValid s source now v = elim (Option-cases (lookup source s.sources)) [
  | inl e ↦ rw (e, verdict) v
  | inr (r, e) ↦
      rw (e, verdict)
        (record {
          policy = v.policy;
          distinct = insert-Distinct source _ s.sources v.distinct;
          bounded = ground (arith, length-insert source (record r { last_seen = now }) s.sources);
        })
]

pub record_failure-IsValid :
    (s : InProcessLoginAttemptStore) (source : String) (now : ℕ)
    → IsValid s
    → IsValid (record_failure s source now).0
unfolding record_failure
record_failure-IsValid s source now v = elim (Option-cases (lookup source s.sources)) [
  | inl e ↦
      rw (e, record_failure)
        (let room = make_room-bounded s.sources now s.policy v.policy.sources v.distinct in
          record {
            policy = v.policy;
            distinct = insert-Distinct source _ _ room.1;
            bounded = ground (
              arith,
              length-insert source
                  (Attempt.record_failure
                    (or_new now (lookup source (make_room s.sources now s.policy))) now s.policy).0
                  (make_room s.sources now s.policy),
              room,
            );
          })
  | inr (r, e) ↦
      rw (e, record_failure)
        (record {
          policy = v.policy;
          distinct = insert-Distinct source _ s.sources v.distinct;
          bounded =
              ground
                (arith, length-insert source (Attempt.record_failure r now s.policy).0 s.sources);
        })
]

pub record_success-IsValid :
    (s : InProcessLoginAttemptStore) (source : String)
    → IsValid s
    → IsValid (record_success s source)
unfolding record_success
record_success-IsValid s source v = record {
  policy = v.policy;
  distinct = remove-Distinct source s.sources v.distinct;
  bounded = ground (arith, length-remove source s.sources v.distinct);
}

-- What the sign-in use case does with the store, in any order.
pub data Call : Type 0 where
  ask failed : String → ℕ → Call
  signed_in : String → Call

abbrev pub step : InProcessLoginAttemptStore → Call → InProcessLoginAttemptStore
step s (ask source now) = (verdict s source now).0
step s (failed source now) = (record_failure s source now).0
step s (signed_in source) = record_success s source

abbrev pub run : InProcessLoginAttemptStore → List Call → InProcessLoginAttemptStore
run s [] = s
run s (k ∷ ks) = run (step s k) ks

step-IsValid : (s : InProcessLoginAttemptStore) (k : Call) → IsValid s → IsValid (step s k)
step-IsValid s (ask source now) v = verdict-IsValid s source now v
step-IsValid s (failed source now) v = record_failure-IsValid s source now v
step-IsValid s (signed_in source) v = record_success-IsValid s source v

run-IsValid : (ks : List Call) (s : InProcessLoginAttemptStore) → IsValid s → IsValid (run s ks)
run-IsValid [] s v = v
run-IsValid (k ∷ ks) s v = run-IsValid ks (step s k) (step-IsValid s k v)

step-policy : (s : InProcessLoginAttemptStore) (k : Call) → (step s k).policy ≡ s.policy
unfolding verdict record_failure record_success
step-policy s (ask source now) = ground arith
step-policy s (failed source now) = ground arith
step-policy s (signed_in source) = refl

run-policy : (ks : List Call) (s : InProcessLoginAttemptStore) → (run s ks).policy ≡ s.policy
run-policy [] s = refl
run-policy (k ∷ ks) s = run-policy ks (step s k) ∙ step-policy s k

-- Whatever is asked and recorded, in whatever order and from however many sources, a new store
-- never tracks more sources than the ceiling of its policy (at least one).
pub tracked_sources-run :
    (p : LoginAttemptPolicy) (ks : List Call)
    → tracked_sources (run (Store.new p) ks) ≤ max p.max_tracked_sources 1
unfolding tracked_sources Store.new sanitized
tracked_sources-run p ks =
    ground
      (arith, (run-IsValid ks (Store.new p) (new-IsValid p)).bounded, run-policy ks (Store.new p))
