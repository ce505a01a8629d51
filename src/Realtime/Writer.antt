-- ===== src/Realtime/Writer.antt =====
-- backend/crates/realtime/src/session.rs, `ConnectionWriter`: one connection's sequence, its replay
-- buffer and its outbound queue. The bounded queue to the socket is tokio's and enters as
-- `Outbound`; the clock's answer is an argument of each call.
pub mod Sending
pub mod Resuming
pub mod Tests
use jiuyue.Base.{
  ◌==◌, if◌then◌else◌, length, first, ℕ, ◌+◌, ◌-◌, ◌/◌, ◌≡◌, Bool, true, false, not, Option, none,
  some, List, [], ◌∷◌, ◌++◌,
}
use jiuyue.Base.Word.{wrapping_add64}
use jiuyue.Base.Int.{ℤ}
use jiuyue.Contract.{
  ServerEvent, ServerEnvelope, envelope, Ping, Resume, Resync, ResyncReason, fresh, replayed,
  unavailable,
}
use jiuyue.Realtime.Replay
use jiuyue.Realtime.Replay.{ReplayBuffer, record_envelope, after}

-- `RealtimeError`, the two storage failures without their causes.
pub data RealtimeError : Type 0 where
  clock clock_range closed chat presence : RealtimeError

pub data Result (A : Type 0) : Type 0 where
  ok : A → Result A
  err : RealtimeError → Result A

-- A bounded channel whose sender waits for room: it fails only when the receiver is gone, which can
-- happen between any two sends. Documented of `mpsc::Sender::send`: what it accepts comes behind what was sent before, and what
-- it refuses is not sent.
pub record Outbound : Type 1 where
  pub Tx : Type 0
  pub sent : Tx → List ServerEnvelope
  pub is_closed : Tx → Bool
  pub send : Tx → ServerEnvelope → Tx
  pub sent-send :
      (t : Tx) (e : ServerEnvelope) → is_closed t ≡ false → sent (send t e) ≡ sent t ++ e ∷ []
  pub sent-send_closed :
      (t : Tx) (e : ServerEnvelope) → is_closed t ≡ true → sent (send t e) ≡ sent t

abbrev pub as_count : ℕ → Result (Unit {0}) → Result ℕ
as_count n (ok _) = ok n
as_count n (err e) = err e

pub data ResumePlan : Type 0 where
  fresh_start : ResumePlan
  replay_from : List ServerEnvelope → ResumePlan
  cannot_replay : ResumePlan

abbrev pub plan_of : Option (List ServerEnvelope) → ResumePlan
plan_of (some es) = replay_from es
plan_of none = cannot_replay

-- `resume.connection_id != Some(self.connection_id)`.
abbrev pub names : Option ℕ → ℕ → Bool
names none id = false
names (some claimed) id = claimed == id

unfoldable pub resync : ResyncReason → ℕ → ServerEvent
resync reason n = ServerEvent.resync (record { reason = reason; replayed = n })

module _ (o : Outbound) where
  open o use {Tx, is_closed, send}

  pub record ConnectionWriter : Type 0 where
    pub tx : Tx
    pub sequence : ℕ
    pub replay : ReplayBuffer
    pub connection_id : ℕ

  unfoldable pub new : Tx → ℕ → ℕ → ConnectionWriter
  unfolding Replay.new
  new tx replay_capacity connection_id = record {
    tx = tx;
    sequence = 0;
    replay = Replay.new replay_capacity;
    connection_id = connection_id;
  }

  -- Recorded for replay first, then handed to the queue.
  unfoldable pub enqueue : ConnectionWriter → ServerEnvelope → ConnectionWriter × Result (Unit {0})
  enqueue w e =
      let w' = record w { replay = record_envelope w.replay e; tx = send w.tx e } in
      (w', (if is_closed w.tx then err closed else ok tt))

  -- A clock that cannot be read ends the call after the sequence was taken.
  unfoldable pub send_event :
      ConnectionWriter → Result ℤ → ServerEvent → ConnectionWriter × Result (Unit {0})
  unfolding enqueue
  send_event w now event =
      let w' = record w { sequence = wrapping_add64 w.sequence 1 } in
      elim now [
        | err e ↦ (w', err e)
        | ok time_ms ↦ enqueue w' (envelope w'.sequence time_ms event)
      ]

  unfoldable pub send_ping : ConnectionWriter → Result ℤ → ConnectionWriter × Result (Unit {0})
  unfolding enqueue
  send_ping w now =
      let w' = record w { sequence = wrapping_add64 w.sequence 1 } in
      elim now [
        | err e ↦ (w', err e)
        | ok time_ms ↦ enqueue w' (
            envelope w'.sequence time_ms (
              ServerEvent.ping (record {
                seq = w'.sequence;
                time_ms = time_ms;
                connection_id = some w.connection_id;
              })))
      ]

  -- The loop of `ConnectionWriter::replay`: no new sequence, nothing recorded again.
  unfoldable pub resend : Tx → List ServerEnvelope → Tx × Result (Unit {0})
  resend t [] = (t, ok tt)
  resend t (e ∷ es) =
      let rest = resend (send t e) es in if is_closed t then (send t e, err closed) else rest

  unfoldable pub replay_envelopes :
      ConnectionWriter → List ServerEnvelope → ConnectionWriter × Result ℕ
  unfolding resend
  replay_envelopes w es =
      let (t, result) = resend w.tx es in (record w { tx = t }, as_count (length es) result)

  unfoldable pub resume_plan : ConnectionWriter → Resume → ResumePlan
  resume_plan w resume =
      if resume.last_seq == 0
      then fresh_start
      else (if names resume.connection_id w.connection_id
          then plan_of (after w.replay resume.last_seq)
          else cannot_replay)

  -- `Session::resume` on the plan: the missed envelopes first, the answer behind them.
  unfoldable pub answer :
      ConnectionWriter → Result ℤ → ResumePlan → ConnectionWriter × Result (Unit {0})
  unfolding send_event replay_envelopes resync
  answer w now fresh_start = send_event w now (resync fresh 0)
  answer w now cannot_replay = send_event w now (resync unavailable 0)
  answer w now (replay_from es) =
      let (w', outcome) = replay_envelopes w es in
      elim outcome [ err e ↦ (w', err e) | ok n ↦ send_event w' now (resync replayed n) ]

  unfoldable pub resume :
      ConnectionWriter → Result ℤ → Resume → ConnectionWriter × Result (Unit {0})
  unfolding answer resume_plan
  resume w now r = answer w now (resume_plan w r)
