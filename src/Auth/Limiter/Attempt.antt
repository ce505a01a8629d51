-- ===== src/Auth/Limiter/Attempt.antt =====
-- backend/crates/auth/src/limiter.rs, `AttemptRecord`: the counters of one source.
use jiuyue.Base.{
  ltb, leb, if◌then◌else◌, is_some_and, is_none_or, ℕ, ◌+◌, Bool, ◌&&◌, Option, none, some,
}
use jiuyue.Base.Word.{saturating_add32, from_secs, saturating_duration_since}
use jiuyue.Auth.Limiter.Policy.{
  LoginAttempt, allowed, throttled, locked_out, LoginAttemptPolicy, throttle_secs, lockout_seconds,
}

pub record AttemptRecord : Type 0 where
  pub failures : ℕ
  pub throttles : ℕ
  pub lockouts : ℕ
  pub window_started : ℕ
  pub throttled_until : Option ℕ
  pub lockout_until : Option ℕ
  pub last_seen : ℕ

unfoldable pub new : ℕ → AttemptRecord
new now = record {
  failures = 0;
  throttles = 0;
  lockouts = 0;
  window_started = now;
  throttled_until = none;
  lockout_until = none;
  last_seen = now;
}

unfoldable pub decay_window : AttemptRecord → ℕ → LoginAttemptPolicy → AttemptRecord
decay_window r now policy =
    if ltb policy.window (saturating_duration_since now r.window_started)
    then record r { failures = 0; throttles = 0; window_started = now }
    else r

-- `until > now`.
abbrev pub is_after : ℕ → ℕ → Bool
is_after now until = ltb now until

unfoldable pub verdict : AttemptRecord → ℕ → LoginAttemptPolicy → LoginAttempt
verdict r now policy =
    if is_some_and r.lockout_until (is_after now)
    then locked_out (lockout_seconds policy r.lockouts)
    else (if is_some_and r.throttled_until (is_after now)
        then throttled (throttle_secs policy)
        else allowed)

-- The failure has been counted and reaches the threshold: a throttle, or a lockout in its place.
unfoldable pub penalise : AttemptRecord → ℕ → LoginAttemptPolicy → AttemptRecord × LoginAttempt
penalise r now policy =
    let throttles = saturating_add32 r.throttles 1 in
    let lockouts = saturating_add32 r.lockouts 1 in
    let seconds = lockout_seconds policy lockouts in
    if leb policy.max_throttles throttles
    then (
      record r {
        throttles = throttles;
        lockouts = lockouts;
        lockout_until = some (now + from_secs seconds);
        throttled_until = none;
      },
      locked_out seconds,
    )
    else (
      record r { throttles = throttles; throttled_until = some (now + policy.throttle) },
      throttled (throttle_secs policy),
    )

unfoldable pub record_failure :
    AttemptRecord → ℕ → LoginAttemptPolicy → AttemptRecord × LoginAttempt
unfolding decay_window penalise
record_failure r now policy =
    let decayed = decay_window r now policy in
    let counted = record decayed {
      last_seen = now;
      failures = saturating_add32 decayed.failures 1;
    } in
    if ltb counted.failures policy.max_failures
    then (counted, allowed)
    else penalise counted now policy

unfoldable pub is_stale : AttemptRecord → ℕ → LoginAttemptPolicy → Bool
is_stale r now policy =
    let window_over = ltb policy.window (saturating_duration_since now r.window_started) in
    let unlocked = is_none_or r.lockout_until (λ until. leb until now) in
    let unthrottled = is_none_or r.throttled_until (λ until. leb until now) in
    window_over && unlocked && unthrottled
