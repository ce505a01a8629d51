-- ===== src/Realtime/Writer/Sending.antt =====
-- One envelope at a time: every envelope that goes out is the next one of the history of its
-- connection, queued and kept for replay.
use jiuyue.Base.{
  some, length, length-append, ℕ, suc, ◌<◌, ◌≡◌, refl, ◌∙◌, false, List, [], ◌∷◌, ◌++◌, arith, some,
  true,
}
use jiuyue.Base.Word.{u64_max, wrapping_add64}
use jiuyue.Base.Int.{ℤ}
use jiuyue.Contract.{ServerEvent, ServerEnvelope, envelope}
use jiuyue.Realtime.Replay.Laws.{Tracks, Tracks-new, record_envelope-Tracks}
use jiuyue.Realtime.Writer.{
  Outbound, Result, ok, err, closed, ConnectionWriter, new, enqueue, send_event, send_ping,
}

-- What a send on a closed queue reports, by what the clock answered.
abbrev pub failure_of : Result ℤ → Result (Unit {0})
failure_of (ok t) = err closed
failure_of (err e) = err e

module _ (o : Outbound) where
  open o use {Tx, sent, is_closed, send, sent-send, sent-send_closed}

  -- The receiver is there at each of these sends.
  abbrev pub Stays : Tx → List ServerEnvelope → Type 0
  Stays t [] = Unit {0}
  Stays t (e ∷ es) = (is_closed t ≡ false) × Stays (send t e) es

  -- A connection after a history: the buffer is a window on the history, which counts as far as the sequence.
  pub record IsLive (w : ConnectionWriter o) (history : List ServerEnvelope) : Type 0 where
    pub window : Tracks w.replay history
    pub counted : w.sequence ≡ length history

  pub new-IsLive : (tx : Tx) (replay_capacity id : ℕ) → IsLive (new o tx replay_capacity id) []
  unfolding new
  new-IsLive tx capacity id = record { window = Tracks-new capacity; counted = refl }

  -- One more envelope went out, and it is the next of the history.
  pub record Sends (w w' : ConnectionWriter o) (history : List ServerEnvelope) (e : ServerEnvelope)
      : Type 0 where
    pub live : IsLive w' (history ++ e ∷ [])
    pub queued : sent w'.tx ≡ sent w.tx ++ e ∷ []
    pub same_connection : w'.connection_id ≡ w.connection_id

  enqueue-Sends :
      (w : ConnectionWriter o) (history : List ServerEnvelope) (e : ServerEnvelope) (n : ℕ)
      → IsLive w history
      → is_closed w.tx ≡ false
      → n ≡ suc (length history)
      → e.sequence ≡ n
      → ((enqueue o (record w { sequence = n }) e).1 ≡ ok tt)
        × Sends w (enqueue o (record w { sequence = n }) e).0 history e
  unfolding enqueue
  enqueue-Sends w history e n l there next numbered = (
    rw there refl,
    record {
      live = record {
        window = record_envelope-Tracks w.replay history e l.window (numbered ∙ next);
        counted = next ∙ omega (arith, length-append history (e ∷ []));
      };
      queued = sent-send w.tx e there;
      same_connection = refl;
    },
  )

  next_sequence :
      (w : ConnectionWriter o) (history : List ServerEnvelope)
      → IsLive w history
      → length history < u64_max
      → wrapping_add64 w.sequence 1 ≡ suc (length history)
  next_sequence w history l room = rw l.counted (omega arith)

  -- With a readable clock an open connection sends each event under the next sequence, keeps it for
  -- replay.
  pub send_event-Sends :
      (w : ConnectionWriter o) (history : List ServerEnvelope) (time_ms : ℤ) (event : ServerEvent)
      → IsLive w history
      → is_closed w.tx ≡ false
      → length history < u64_max
      → ((send_event o w (ok time_ms) event).1 ≡ ok tt)
        × Sends w
            (send_event o w (ok time_ms) event).0
            history
            (envelope (suc (length history)) time_ms event)
  unfolding send_event envelope
  send_event-Sends w history time_ms event l there room =
      rw (next_sequence, l, room) (enqueue-Sends w history _ _ l there refl refl)

  -- With a readable clock an open connection sends each heartbeat as the next envelope of the history
  -- and keeps it for replay; it carries its own sequence and the id of the connection.
  send_ping-Sends :
      (w : ConnectionWriter o) (history : List ServerEnvelope) (time_ms : ℤ)
      → IsLive w history
      → is_closed w.tx ≡ false
      → length history < u64_max
      → ((send_ping o w (ok time_ms)).1 ≡ ok tt)
        × Sends w (send_ping o w (ok time_ms)).0 history (
            envelope (suc (length history)) time_ms (
              ServerEvent.ping (record {
                seq = suc (length history);
                time_ms = time_ms;
                connection_id = some w.connection_id;
              })))
  unfolding send_ping envelope
  send_ping-Sends w history time_ms l there room =
      rw (next_sequence, l, room) (enqueue-Sends w history _ _ l there refl refl)

  -- On a closed queue nothing goes out, and an event ends in the error of the clock, if the clock
  -- could not be read, and else in the error that says that the connection is closed.
  pub send_event-fails :
      (w : ConnectionWriter o) (now : Result ℤ) (event : ServerEvent)
      → is_closed w.tx ≡ true
      → ((send_event o w now event).1 ≡ (failure_of now))
        × (sent (send_event o w now event).0.tx ≡ sent w.tx)
  unfolding send_event
  send_event-fails w (err e) event h = (refl, refl)
  send_event-fails w (ok t) event h = (rw h refl, sent-send_closed w.tx _ h)
