-- ===== src/Auth/Limiter/Store.antt =====
-- backend/crates/auth/src/limiter.rs, `InProcessLoginAttemptStore`: the counters of every source.
-- Each operation holds the lock, so it is one step; the clock's answer is an argument.
use jiuyue.Base.{
  ltb, leb, if◌then◌else◌, length, ℕ, zero, suc, String, true, false, not, Option, none, some, [],
  ◌∷◌, text_key, nat_key,
}
use jiuyue.Base.Map.{Map, retain, lookup, insert, remove}
use jiuyue.Auth.Limiter.Policy.{LoginAttempt, allowed, LoginAttemptPolicy, sanitized}
use jiuyue.Auth.Limiter.Attempt
use jiuyue.Auth.Limiter.Attempt.{AttemptRecord, is_stale}

pub record InProcessLoginAttemptStore : Type 0 where
  pub policy : LoginAttemptPolicy
  pub sources : Map String AttemptRecord

unfoldable pub new : LoginAttemptPolicy → InProcessLoginAttemptStore
new policy = record { policy = sanitized policy; sources = [] }

unfoldable pub tracked_sources : InProcessLoginAttemptStore → ℕ
tracked_sources s = length s.sources

-- `min_by_key(last_seen)`: the first of the entries that were seen the longest ago.
abbrev pub colder :
    String × AttemptRecord → Option (String × AttemptRecord) → String × AttemptRecord
colder e none = e
colder e (some best) = if leb e.1.last_seen best.1.last_seen then e else best

unfoldable pub coldest : Map String AttemptRecord → Option (String × AttemptRecord)
coldest [] = none
coldest (e ∷ m) = some (colder e (coldest m))

-- The eviction loop. Each turn removes an entry, so as many turns as entries are enough.
unfoldable pub evict : ℕ → ℕ → Map String AttemptRecord → Map String AttemptRecord
unfolding coldest
evict cap zero m = m
evict cap (suc n) m = elim (leb cap (length m)) [
  | false ↦ m
  | true ↦ elim (coldest m) [ none ↦ m | some e ↦ evict cap n (remove e.0 m) ]
]

unfoldable pub make_room :
    Map String AttemptRecord → ℕ → LoginAttemptPolicy → Map String AttemptRecord
unfolding evict
make_room m now policy =
    if ltb (length m) policy.max_tracked_sources
    then m
    else (let live = retain (λ _ r. not (is_stale r now policy)) m in
        evict policy.max_tracked_sources (length live) live)

-- Asking counts as being seen.
unfoldable pub verdict :
    InProcessLoginAttemptStore → String → ℕ → InProcessLoginAttemptStore × LoginAttempt
verdict s source now = elim (lookup source s.sources) [
  | none ↦ (s, allowed)
  | some r ↦
      let seen = record r { last_seen = now } in
      (record s { sources = insert source seen s.sources }, Attempt.verdict seen now s.policy)
]

-- `entry(source).or_insert_with(new)` after `make_room`.
abbrev pub or_new : ℕ → Option AttemptRecord → AttemptRecord
or_new now none = Attempt.new now
or_new now (some r) = r

unfoldable pub record_failure :
    InProcessLoginAttemptStore → String → ℕ → InProcessLoginAttemptStore × LoginAttempt
unfolding make_room
record_failure s source now = elim (lookup source s.sources) [
  | some r ↦
      let (r', answer) = Attempt.record_failure r now s.policy in
      (record s { sources = insert source r' s.sources }, answer)
  | none ↦
      let room = make_room s.sources now s.policy in
      let (r', answer) = Attempt.record_failure (or_new now (lookup source room)) now s.policy in
      (record s { sources = insert source r' room }, answer)
]

unfoldable pub record_success : InProcessLoginAttemptStore → String → InProcessLoginAttemptStore
record_success s source = record s { sources = remove source s.sources }
