-- ===== src/Auth/Limiter/Tests.antt =====
-- Runs of the limiter at concrete inputs.
use jiuyue.Base.{
  ltb, if◌then◌else◌, ℕ, ◌+◌, ◌≤◌, String, ◌≡◌, refl, true, List, [], ◌∷◌, arith, text_key, nat_key,
  text_discrete,
}
use jiuyue.Base.Map.{retain, lookup, insert, remove}
use jiuyue.Base.Word.{from_secs}
use jiuyue.Auth.Limiter.Policy.{
  LoginAttempt, allowed, throttled, locked_out, LoginAttemptPolicy, sanitized, lockout_seconds,
  throttle_secs,
}
use jiuyue.Auth.Limiter.Attempt
use jiuyue.Auth.Limiter.Attempt.{AttemptRecord, decay_window, penalise, is_stale}
use jiuyue.Auth.Limiter.Store
use jiuyue.Auth.Limiter.Store.{
  InProcessLoginAttemptStore, tracked_sources, coldest, evict, make_room, record_failure,
  record_success,
}
use jiuyue.Auth.Limiter.Bounds.{
  IsValid, Call, ask, failed, run, tracked_sources-run, new-IsValid, record_failure-IsValid,
}
use jiuyue.Auth.Limiter.Verdicts.{penalty, asked, record_failure-verdict}

program : Unit {0}
unfolding Store.verdict Store.new sanitized record_failure Attempt.record_failure Attempt.verdict
    Attempt.new decay_window penalise lookup insert remove lockout_seconds throttle_secs make_room
    evict coldest retain is_stale tracked_sources text_discrete
program = tt

-- Two failures, one throttle, two sources.
abbrev small : LoginAttemptPolicy
small = record {
  max_failures = 2;
  window = from_secs 60;
  throttle = from_secs 10;
  max_throttles = 2;
  lockout = from_secs 30;
  max_tracked_sources = 2;
}

abbrev grind_from : String → List ℕ → List Call
grind_from source [] = []
grind_from source (t ∷ ts) = failed source (from_secs t) ∷ grind_from source ts

abbrev after_calls : List Call → InProcessLoginAttemptStore
after_calls ks = run (Store.new small) ks

abbrev answer_at : List Call → String → ℕ → LoginAttempt
answer_at ks source t = (Store.verdict (after_calls ks) source (from_secs t)).1

escalates :
    (answer_at (grind_from "a" (0 ∷ 1 ∷ [])) "a" 2 ≡ throttled 10)
    × (answer_at (grind_from "a" (0 ∷ 1 ∷ [])) "a" 11 ≡ allowed)
    × (answer_at (grind_from "a" (0 ∷ 1 ∷ 12 ∷ [])) "a" 13 ≡ locked_out 30)
    × (answer_at (grind_from "a" (0 ∷ 1 ∷ 12 ∷ [])) "b" 13 ≡ allowed)
unfolding program
escalates = (refl, refl, refl, refl)

-- A full store forgets the coldest source for a new one.
forgets_the_coldest :
    tracked_sources (after_calls (failed "a" 0 ∷ failed "b" 1 ∷ failed "c" 2 ∷ [])) ≡ 2
unfolding program
forgets_the_coldest = refl

-- A source that was locked out once, seen again when the penalty and the window are over.
abbrev reoffender : AttemptRecord
reoffender = record (Attempt.new 0) { lockouts = 1 }

-- Kept, its next lockout is twice as long as that of a new source; `make_room` may drop it.
a_stale_record_still_counts :
    (is_stale reoffender (from_secs 100) small ≡ true)
    × ((Attempt.record_failure
          (Attempt.record_failure
            (Attempt.record_failure reoffender (from_secs 100) small).0
            (from_secs 101)
            small).0
          (from_secs 112)
          small).1
        ≡ locked_out 60)
    × ((Attempt.record_failure
          (Attempt.record_failure
            (Attempt.record_failure (Attempt.new (from_secs 100)) (from_secs 100) small).0
            (from_secs 101)
            small).0
          (from_secs 112)
          small).1
        ≡ locked_out 30)
unfolding program
a_stale_record_still_counts = (refl, refl, refl)

tracked_sources-run_example :
    tracked_sources (after_calls (failed "a" 0 ∷ ask "b" 1 ∷ failed "b" 1 ∷ failed "c" 2 ∷ [])) ≤ 2
tracked_sources-run_example =
    tracked_sources-run small (failed "a" 0 ∷ ask "b" 1 ∷ failed "b" 1 ∷ failed "c" 2 ∷ [])

abbrev warned : InProcessLoginAttemptStore
warned = (record_failure (Store.new small) "a" 0).0

warned-IsValid : IsValid warned
warned-IsValid = record_failure-IsValid (Store.new small) "a" 0 (new-IsValid small)

abbrev questions : List (String × ℕ)
questions = ("b", 2) ∷ ("a", 3) ∷ []

record_failure-verdict_example :
    (Store.verdict (asked (record_failure warned "a" 1).0 questions) "a" 5).1 ≡ (
      if ltb 5 (1 + penalty warned.policy (record_failure warned "a" 1).1)
      then (record_failure warned "a" 1).1
      else allowed)
unfolding program
record_failure-verdict_example =
    record_failure-verdict warned "a" 1 5 questions warned-IsValid refl (omega arith)
