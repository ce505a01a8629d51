-- ===== src/Auth/Limiter/Policy.antt =====
-- backend/crates/auth/src/limiter.rs, `LoginAttemptPolicy`: the thresholds. Durations count
-- nanoseconds.
use jiuyue.Base.{ℕ, ◌-◌, ◌*◌, ◌≤◌, min, max, arith, ◌^◌, ◌^◌}
use jiuyue.Base.Word.{saturating_mul64, clamp, from_secs, from_millis, as_secs}
use native.Mathlib.Nat.{mul-le-mul_left, pow-le-pow_right}

pub data LoginAttempt : Type 0 where
  allowed : LoginAttempt
  throttled locked_out : ℕ → LoginAttempt

abbrev pub max_lockout_secs : ℕ
max_lockout_secs = 24 * 60 * 60

abbrev pub max_lockout_doublings : ℕ
max_lockout_doublings = 16

pub record LoginAttemptPolicy : Type 0 where
  pub max_failures : ℕ
  pub window : ℕ
  pub throttle : ℕ
  pub max_throttles : ℕ
  pub lockout : ℕ
  pub max_tracked_sources : ℕ

abbrev pub default : LoginAttemptPolicy
default = record {
  max_failures = 5;
  window = from_secs (15 * 60);
  throttle = from_secs 60;
  max_throttles = 3;
  lockout = from_secs (15 * 60);
  max_tracked_sources = 20_000;
}

-- The wait that a throttle reports: its whole length, never zero.
unfoldable pub throttle_secs : LoginAttemptPolicy → ℕ
throttle_secs p = max (as_secs p.throttle) 1

-- `1 << exponent`, then the product saturates and is clamped.
unfoldable pub lockout_seconds : LoginAttemptPolicy → ℕ → ℕ
lockout_seconds p lockouts =
    let exponent = min (lockouts - 1) max_lockout_doublings in
    clamp (saturating_mul64 (as_secs p.lockout) (2 ^ exponent)) 1 max_lockout_secs

-- Values that can trip.
unfoldable pub sanitized : LoginAttemptPolicy → LoginAttemptPolicy
sanitized p =
    let floor = from_millis 1 in
    record {
      max_failures = max p.max_failures 1;
      window = max p.window floor;
      throttle = max p.throttle floor;
      max_throttles = max p.max_throttles 1;
      lockout = max p.lockout floor;
      max_tracked_sources = max p.max_tracked_sources 1;
    }

-- What `sanitized` gives.
pub record IsSanitized (p : LoginAttemptPolicy) : Type 0 where
  pub failures : 1 ≤ p.max_failures
  pub throttles : 1 ≤ p.max_throttles
  pub throttle : 1 ≤ p.throttle
  pub sources : 1 ≤ p.max_tracked_sources

pub sanitized-IsSanitized : (p : LoginAttemptPolicy) → IsSanitized (sanitized p)
unfolding sanitized
sanitized-IsSanitized p = record {
  failures = omega arith;
  throttles = omega arith;
  throttle = omega arith;
  sources = omega arith;
}

grown :
    (base n m : ℕ)
    → n ≤ m
    → base * 2 ^ min (n - 1) max_lockout_doublings ≤ base * 2 ^ min (m - 1) max_lockout_doublings
grown base n m h = mul-le-mul_left base (pow-le-pow_right {n = 2} (omega arith) (omega arith))

-- A later lockout is never shorter than an earlier one, and every lockout takes between a second
-- and a day.
pub lockout_seconds_mono :
    (p : LoginAttemptPolicy) (n m : ℕ)
    → n ≤ m
    → (1 ≤ lockout_seconds p n)
      × (lockout_seconds p n ≤ lockout_seconds p m)
      × (lockout_seconds p m ≤ max_lockout_secs)
unfolding lockout_seconds
lockout_seconds_mono p n m h = ground (arith, grown (as_secs p.lockout) n m h)
