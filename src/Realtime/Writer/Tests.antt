-- ===== src/Realtime/Writer/Tests.antt =====
-- A connection that sent five envelopes with room for three, and three clients that come back.
use jiuyue.Base.{
  drop, ℕ, ◌≡◌, refl, true, false, some, List, [], ◌∷◌, ◌++◌, arith, if◌then◌else◌, not, is_empty,
  ◌&&◌, ◌&&◌, leb, length, none, ◌<◌, ◌<◌, ◌≤◌, ◌≤◌, ◌+◌,
}
use jiuyue.Base.Int.{pos}
use jiuyue.Contract.{ServerEvent, ServerEnvelope, envelope, Resume, fresh, replayed}
use jiuyue.Realtime.Replay.{record_envelope, after}
use jiuyue.Realtime.Writer.{
  Outbound, ok, ConnectionWriter, new, send_event, send_ping, resume, resync, resume_plan,
}
use jiuyue.Realtime.Replay.Laws.{Consecutive, after-Tracks}
use jiuyue.Realtime.Writer.Sending
use jiuyue.Realtime.Writer.Resuming
use jiuyue.Realtime.Writer.Sending.{IsLive, Sends}
use jiuyue.Realtime.Writer.Resuming.{Resumes, due}

program : Unit {0}
unfolding new send_event send_ping resume resync after record_envelope envelope
program = tt

-- A queue that is never closed.
tape_send : List ServerEnvelope → ServerEnvelope → List ServerEnvelope
tape_send t e = t ++ e ∷ []

tape_sent : (t : List ServerEnvelope) (e : ServerEnvelope) → tape_send t e ≡ t ++ e ∷ []
unfolding tape_send
tape_sent t e = refl

tape_never : (t : List ServerEnvelope) (e : ServerEnvelope) → false ≡ true → tape_send t e ≡ t
tape_never t e h = cc

abbrev tape : Outbound
tape = record {
  Tx = List ServerEnvelope;
  sent = λ t. t;
  is_closed = λ t. false;
  send = tape_send;
  sent-send = λ t e h. tape_sent t e;
  sent-send_closed = tape_never;
}

abbrev start : ConnectionWriter tape
start = new tape [] 3 9

start-IsLive : IsLive tape start []
start-IsLive = Sending.new-IsLive tape [] 3 9

abbrev note : ServerEvent
note = resync fresh 0

step : ConnectionWriter tape → ConnectionWriter tape
step w = (send_event tape w (ok (pos 0)) note).0

abbrev fifth : ConnectionWriter tape
fifth = step (step (step (step (step start))))

abbrev position : ℕ → Resume
position k = record { last_seq = k; connection_id = some 9 }

sequences : List ServerEnvelope → List ℕ
sequences [] = []
sequences (e ∷ es) = e.sequence ∷ sequences es

resumes_from_two :
    sequences (drop 5 (resume tape fifth (ok (pos 0)) (position 2)).0.tx) ≡ 3 ∷ 4 ∷ 5 ∷ 6 ∷ []
unfolding program step sequences tape_send
resumes_from_two = refl

gone_never : (t : List ServerEnvelope) (e : ServerEnvelope) → true ≡ false → t ≡ t ++ e ∷ []
gone_never t e h = cc

-- A queue that its receiver has left.
abbrev gone : Outbound
gone = record {
  Tx = List ServerEnvelope;
  sent = λ t. t;
  is_closed = λ t. true;
  send = λ t e. t;
  sent-send = gone_never;
  sent-send_closed = λ t e h. refl;
}

evicted_position : resume_plan tape fifth (position 1) ≡ resume_plan tape start (position 1)
unfolding program step resume_plan tape_send
evicted_position = refl

abbrev two_sent : List ServerEnvelope
two_sent = envelope 1 (pos 0) note ∷ envelope 2 (pos 0) note ∷ []

room_left : (0 < 3) × (2 ≤ 3)
room_left = omega arith

abbrev two-IsLive : IsLive tape (step (step start)) two_sent
unfolding program step tape_send
two-IsLive = record {
  window = record {
    evicted = [];
    whole = refl;
    numbered = (refl, (refl, tt));
    positive = room_left.0;
    bounded = room_left.1;
    eager = λ h. refl;
  };
  counted = refl;
}

resume-Resumes_example :
    Resumes tape
      (step (step start))
      (resume tape (step (step start)) (ok (pos 0)) (position 1)).0
      two_sent
      (envelope 2 (pos 0) note ∷ [])
      (envelope 3 (pos 0) (resync replayed 1))
unfolding program step tape_send
resume-Resumes_example =
    (Resuming.resume-Resumes tape (step (step start)) two_sent (envelope 2 (pos 0) note ∷ [])
      replayed (pos 0) (position 1) two-IsLive (omega arith) refl (refl, (refl, tt))).1

resume-Consecutive_example :
    ((resume tape (step (step start)) (ok (pos 0)) (position 1)).1 ≡ ok tt)
    × (es : List ServerEnvelope) × ((resume tape (step (step start)) (ok (pos 0)) (position 1)).0.tx
        ≡ two_sent ++ es)
    × Consecutive 1 es
    × (1 + length es ≡ 3)
unfolding program step tape_send
resume-Consecutive_example =
    Resuming.resume-Consecutive tape (step (step start)) two_sent (pos 0) (position 1) two-IsLive
      (omega arith) (omega arith) refl (omega arith) (omega arith) (refl, (refl, tt))

after-Tracks_example : after (step (step start)).replay 1 ≡ (
    if not (is_empty two_sent) && (leb (length two-IsLive.window.evicted) 1 && leb 1 2)
    then some (drop 1 two_sent)
    else none)
unfolding program step tape_send
after-Tracks_example =
    after-Tracks (step (step start)).replay two_sent 1 two-IsLive.window (omega arith)
