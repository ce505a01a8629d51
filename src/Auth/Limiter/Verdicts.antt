-- ===== src/Auth/Limiter/Verdicts.antt =====
-- What the limiter answers: how long a penalty holds, when the first one comes, and that a source
-- answers for its own failures only.
use jiuyue.Base.{
  ltb, if◌then◌else◌, Option-cases, length, All, ℕ, suc, ◌+◌, ◌≤◌, ◌<◌, String, ◌≡◌, refl, ◌≢◌, ◌↔◌,
  ◌⊎◌, ◌∙◌, inl, inr, true, none, List, [], ◌∷◌, arith, text_key, nat_key,
}
use jiuyue.Base.Map.{lookup, lookup-insert}
use jiuyue.Base.Word.{u32_max, from_secs}
use jiuyue.Auth.Limiter.Policy.{LoginAttempt, allowed, throttled, locked_out, LoginAttemptPolicy}
use jiuyue.Auth.Limiter.Attempt
use jiuyue.Auth.Limiter.Attempt.{AttemptRecord, decay_window, penalise, is_stale}
use jiuyue.Auth.Limiter.Store
use jiuyue.Auth.Limiter.Store.{
  InProcessLoginAttemptStore, tracked_sources, make_room, or_new, record_failure, record_success,
}
use jiuyue.Auth.Limiter.Bounds.{IsValid, lookup-make_room}

-- How long an answer stays in force.
abbrev pub penalty : LoginAttemptPolicy → LoginAttempt → ℕ
penalty p allowed = 0
penalty p (throttled seconds) = p.throttle
penalty p (locked_out seconds) = from_secs seconds

penalty_holds :
    (r : AttemptRecord) (p : LoginAttemptPolicy) (now later : ℕ)
    → Attempt.verdict r now p ≡ allowed
    → now ≤ later
    → Attempt.verdict (Attempt.record_failure r now p).0 later p ≡ (
        if ltb later (now + penalty p (Attempt.record_failure r now p).1)
        then (Attempt.record_failure r now p).1
        else allowed)
unfolding Attempt.verdict Attempt.record_failure decay_window penalise
penalty_holds r p now later free h = ground arith

-- A stale record answers `allowed`, and answers a failure as a new record with the same number of
-- earlier lockouts would.
is_stale-verdict :
    (r : AttemptRecord) (p : LoginAttemptPolicy) (now later : ℕ)
    → is_stale r now p ≡ true
    → now ≤ later
    → (Attempt.verdict r later p ≡ allowed)
      × ((Attempt.record_failure r later p).1
          ≡ (Attempt.record_failure
              (record (Attempt.new later) { lockouts = r.lockouts })
              later
              p).1)
unfolding Attempt.verdict Attempt.record_failure Attempt.new decay_window penalise is_stale
is_stale-verdict r p now later stale h = (ground arith, ground arith)

abbrev pub fail_all : AttemptRecord → List ℕ → LoginAttemptPolicy → AttemptRecord
fail_all r [] p = r
fail_all r (t ∷ ts) p = fail_all (Attempt.record_failure r t p).0 ts p

-- A record that has earned nothing yet.
record HasFailed (r : AttemptRecord) (start n : ℕ) : Type 0 where
  failures : r.failures ≡ n
  throttles : r.throttles ≡ 0
  window_started : r.window_started ≡ start
  throttled_until : r.throttled_until ≡ none
  lockout_until : r.lockout_until ≡ none

record_failure-HasFailed :
    (r : AttemptRecord) (p : LoginAttemptPolicy) (start n t : ℕ)
    → HasFailed r start n
    → t ≤ start + p.window
    → suc n < p.max_failures
    → suc n ≤ u32_max
    → HasFailed (Attempt.record_failure r t p).0 start (suc n)
unfolding Attempt.record_failure decay_window
record_failure-HasFailed r p start n t f within few fits = ground arith

fail_all-HasFailed :
    (r : AttemptRecord) (p : LoginAttemptPolicy) (start n : ℕ) (ts : List ℕ)
    → HasFailed r start n
    → All (λ t. t ≤ start + p.window) ts
    → n + length ts < p.max_failures
    → n + length ts ≤ u32_max
    → HasFailed (fail_all r ts p) start (n + length ts)
fail_all-HasFailed r p start n [] f within few fits = ground (arith, f)
fail_all-HasFailed r p start n (t ∷ ts) f within few fits = ground (
  arith,
  fail_all-HasFailed (Attempt.record_failure r t p).0 p start (suc n) ts
      (record_failure-HasFailed r p start n t f within.0 (omega arith) (omega arith)) within.1
      (omega arith) (omega arith),
)

-- Failures of a new source inside one window: below the threshold the source is free to try, and
-- the failure that reaches the threshold is answered with a penalty, no earlier one is.
fail_all-threshold :
    (p : LoginAttemptPolicy) (start now : ℕ) (ts : List ℕ)
    → All (λ t. t ≤ start + p.window) (now ∷ ts)
    → length ts < p.max_failures
    → p.max_failures ≤ u32_max
    → (Attempt.verdict (fail_all (Attempt.new start) ts p) now p ≡ allowed)
      × (((Attempt.record_failure (fail_all (Attempt.new start) ts p) now p).1 ≡ allowed)
          ↔ (suc (length ts) < p.max_failures))
unfolding Attempt.verdict Attempt.record_failure Attempt.new decay_window penalise
fail_all-threshold p start now ts within few fits =
    let f : HasFailed (fail_all (Attempt.new start) ts p) start (length ts) = ground (
      arith,
      fail_all-HasFailed (Attempt.new start) p start 0 ts
          (record {
            failures = refl;
            throttles = refl;
            window_started = refl;
            throttled_until = refl;
            lockout_until = refl;
          })
          within.1 (omega arith) (omega arith),
    ) in
    (ground (arith, f), (λ h. ground (arith, f), λ h. ground (arith, f)))

-- A failure of one source leaves the counters of every other as they were, except that it may
-- forget them when the source is new and the store is full.
record_failure-others :
    (s : InProcessLoginAttemptStore) (source other : String) (now : ℕ)
    → IsValid s
    → source ≢ other
    → (lookup other (record_failure s source now).0.sources ≡ lookup other s.sources)
      ⊎ ((lookup other (record_failure s source now).0.sources ≡ none)
          × (lookup source s.sources ≡ none)
          × (s.policy.max_tracked_sources ≤ tracked_sources s))
unfolding record_failure tracked_sources make_room
record_failure-others s source other now v ne = elim (Option-cases (lookup source s.sources)) [
  | inl e ↦ ground (
    arith,
    lookup-make_room s.sources now s.policy other v.distinct,
    lookup-insert source other
        (Attempt.record_failure (or_new now (lookup source (make_room s.sources now s.policy))) now
          s.policy).0
        (make_room s.sources now s.policy),
  )
  | inr (r, e) ↦
      ground (arith, lookup-insert source other (Attempt.record_failure r now s.policy).0 s.sources)
]

-- Questions about any sources, one after the other.
abbrev pub asked : InProcessLoginAttemptStore → List (String × ℕ) → InProcessLoginAttemptStore
asked s [] = s
asked s ((source, now) ∷ qs) = asked (Store.verdict s source now).0 qs

verdict-verdict :
    (s : InProcessLoginAttemptStore) (other source : String) (now later : ℕ)
    → (Store.verdict (Store.verdict s other now).0 source later).1
      ≡ (Store.verdict s source later).1
unfolding Store.verdict Attempt.verdict
verdict-verdict s other source now later = elim (Option-cases (lookup other s.sources)) [
  | inl e ↦ ground (arith, e)
  | inr (r, e) ↦
      ground (arith, e, lookup-insert other source (record r { last_seen = now }) s.sources)
]

verdict-asked :
    (qs : List (String × ℕ)) (s : InProcessLoginAttemptStore) (source : String) (later : ℕ)
    → (Store.verdict (asked s qs) source later).1 ≡ (Store.verdict s source later).1
verdict-asked [] s source later = refl
verdict-asked ((other, now) ∷ qs) s source later =
    verdict-asked qs (Store.verdict s other now).0 source later
    ∙ verdict-verdict s other source now later

record_failure-answer :
    (s : InProcessLoginAttemptStore) (source : String) (now later : ℕ)
    → IsValid s
    → (Store.verdict s source now).1 ≡ allowed
    → now ≤ later
    → (Store.verdict (record_failure s source now).0 source later).1 ≡ (
        if ltb later (now + penalty s.policy (record_failure s source now).1)
        then (record_failure s source now).1
        else allowed)
unfolding Store.verdict record_failure Attempt.verdict Attempt.new
record_failure-answer s source now later v free h = elim (Option-cases (lookup source s.sources)) [
  | inl e ↦ ground (
    arith,
    lookup-make_room s.sources now s.policy source v.distinct,
    lookup-insert source source (Attempt.record_failure (Attempt.new now) now s.policy).0
        (make_room s.sources now s.policy),
    penalty_holds (Attempt.new now) s.policy now later refl h,
  )
  | inr (r, e) ↦ ground (
    arith,
    lookup-insert source source (Attempt.record_failure r now s.policy).0 s.sources,
    penalty_holds r s.policy now later,
  )
]

-- The answer to a failed attempt of a source that was allowed to try is what the source is told
-- until the penalty has passed, and from then on it may try again, however many questions about
-- whatever sources come between. A failure or a success between them is not covered: a failure of
-- another source can evict the record.
pub record_failure-verdict :
    (s : InProcessLoginAttemptStore) (source : String) (now later : ℕ) (qs : List (String × ℕ))
    → IsValid s
    → (Store.verdict s source now).1 ≡ allowed
    → now ≤ later
    → (Store.verdict (asked (record_failure s source now).0 qs) source later).1 ≡ (
        if ltb later (now + penalty s.policy (record_failure s source now).1)
        then (record_failure s source now).1
        else allowed)
record_failure-verdict s source now later qs v free h =
    verdict-asked qs (record_failure s source now).0 source later
    ∙ record_failure-answer s source now later v free h
