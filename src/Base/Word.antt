-- ===== src/Base/Word.antt =====
-- The fixed-width operations of the Rust code: saturating, wrapping and checked arithmetic on
-- `u32` and `u64`, and the durations of `std::time`, counted in nanoseconds.
use Prim.Native.Nat.{ℕ, ◌+◌, ◌-◌, ◌*◌, ◌/◌, ◌%◌, min}
use mathlib.Core.Option.{Option, none, some}
use jiuyue.Base.Branch.{ltb, if◌then◌else◌}

abbrev pub u32_max : ℕ
u32_max = 0xffffffff

abbrev pub u64_max : ℕ
u64_max = 0xffffffffffffffff

abbrev pub saturating_add32 : ℕ → ℕ → ℕ
saturating_add32 a b = min (a + b) u32_max

abbrev pub saturating_mul64 : ℕ → ℕ → ℕ
saturating_mul64 a b = min (a * b) u64_max

-- `AtomicU64::fetch_add` wraps.
abbrev pub wrapping_add64 : ℕ → ℕ → ℕ
wrapping_add64 a b = (a + b) % (u64_max + 1)

abbrev pub checked_add64 : ℕ → ℕ → Option ℕ
checked_add64 a b = if ltb u64_max (a + b) then none else some (a + b)

-- `Ord::clamp` for `low ≤ high`.
abbrev pub clamp : ℕ → ℕ → ℕ → ℕ
clamp x low high = if ltb x low then low else if ltb high x then high else x

abbrev pub nanos_per_sec : ℕ
nanos_per_sec = 1_000_000_000

abbrev pub nanos_per_milli : ℕ
nanos_per_milli = 1_000_000

abbrev pub from_secs : ℕ → ℕ
from_secs s = s * nanos_per_sec

abbrev pub from_millis : ℕ → ℕ
from_millis s = s * nanos_per_milli

abbrev pub as_secs : ℕ → ℕ
as_secs d = d / nanos_per_sec

-- `Instant::saturating_duration_since`: an instant is a count of nanoseconds, and a later
-- `earlier` gives zero, as subtraction on ℕ does.
abbrev pub saturating_duration_since : ℕ → ℕ → ℕ
saturating_duration_since now earlier = now - earlier
