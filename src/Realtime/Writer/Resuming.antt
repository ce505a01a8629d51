-- ===== src/Realtime/Writer/Resuming.antt =====
-- The resume handshake: what a client that was away is sent again, and the answer behind it.
use jiuyue.Base.{
  none, some, length, ℕ, suc, ◌+◌, ◌<◌, ◌≡◌, refl, ◌∙◌, false, List, [], ◌∷◌, ◌++◌, arith, some,
  sym, Option, if◌then◌else◌, append-nil, ◌==◌, ap, append_assoc, Bool-cases, inl, inr, drop, ◌≤◌,
  length-drop, length-append, ◌≤◌, subst, zero,
}
use jiuyue.Base.Word.{u64_max}
use jiuyue.Base.Int.{ℤ}
use jiuyue.Contract.{
  ServerEvent, ServerEnvelope, envelope, Resume, ResyncReason, fresh, replayed, unavailable,
}
use jiuyue.Realtime.Replay.Laws.{Consecutive, answer_of, after-Tracks, Consecutive-append}
use jiuyue.Realtime.Writer.{
  Outbound, ok, ConnectionWriter, send_event, resend, replay_envelopes, ResumePlan, fresh_start,
  replay_from, cannot_replay, resume_plan, resync, answer, resume, names, plan_of,
}
use jiuyue.Realtime.Writer.Sending.{IsLive, Stays, Sends, send_event-Sends}

-- What a resume position is owed: the envelopes to send again, and the reason given.
abbrev pub owed : Option (List ServerEnvelope) → List ServerEnvelope × ResyncReason
owed none = ([], unavailable)
owed (some es) = (es, replayed)

abbrev pub due :
    List ServerEnvelope → List ServerEnvelope → ℕ → Resume → List ServerEnvelope × ResyncReason
due evicted history id r =
    if r.last_seq == 0
    then ([], fresh)
    else (if names r.connection_id id
        then owed (answer_of evicted history r.last_seq)
        else ([], unavailable))

-- A position of this connection that is retained is owed what came after it.
due-retained :
    (evicted history : List ServerEnvelope) (id : ℕ) (r : Resume)
    → 1 ≤ r.last_seq
    → r.connection_id ≡ some id
    → length evicted ≤ r.last_seq
    → r.last_seq ≤ length history
    → due evicted history id r ≡ (drop r.last_seq history, replayed)
due-retained evicted [] id r some_seen same kept seen = absurd (omega arith)
due-retained evicted (e ∷ es) id r some_seen same kept seen = ground arith

Consecutive-drop_self :
    (k : ℕ) (es : List ServerEnvelope)
    → k ≤ length es
    → Consecutive 0 es
    → Consecutive k (drop k es)
Consecutive-drop_self k es h c =
    subst (λ m. Consecutive m (drop k es)) (omega arith) (from 0 k es h c)
  where
    from :
        (n i : ℕ) (xs : List ServerEnvelope)
        → i ≤ length xs
        → Consecutive n xs
        → Consecutive (n + i) (drop i xs)
    from n zero xs h c = subst (λ m. Consecutive m xs) (omega arith) c
    from n (suc i) [] h c = absurd (omega arith)
    from n (suc i) (x ∷ xs) h c =
        subst (λ m. Consecutive m (drop i xs)) (omega arith) (from (suc n) i xs (omega arith) c.1)

module _ (o : Outbound) where
  open o use {Tx, sent, is_closed, send, sent-send, sent-send_closed}

  -- As long as the receiver stays, the loop of a replay sends every envelope, in order.
  resend_all :
      (es rest : List ServerEnvelope) (t : Tx)
      → Stays o t (es ++ rest)
      → ((resend o t es).1 ≡ ok tt)
        × (sent (resend o t es).0 ≡ sent t ++ es)
        × Stays o (resend o t es).0 rest
  unfolding resend
  resend_all [] rest t h = (refl, sym (append-nil (sent t)), h)
  resend_all (e ∷ es) rest t h =
      let (done, queued, there) = resend_all es rest (send t e) h.1 in
      rw h.0 (
        done,
        queued ∙ ap (λ l. l ++ es) (sent-send t e h.0) ∙ append_assoc (sent t) (e ∷ []) es,
        there,
      )

  -- The outcome of a resume: the missed envelopes are sent again as they were, then one answer
  -- under the next sequence.
  pub record Resumes (w w' : ConnectionWriter o) (history missed : List ServerEnvelope)
      (e : ServerEnvelope) : Type 0 where
    pub live : IsLive o w' (history ++ e ∷ [])
    pub queued : sent w'.tx ≡ sent w.tx ++ (missed ++ e ∷ [])

  -- The answer behind the missed envelopes.
  abbrev pub answer_to :
      List ServerEnvelope → ℤ → List ServerEnvelope → ResyncReason → ServerEnvelope
  answer_to history time_ms missed reason =
      envelope (suc (length history)) time_ms (resync reason (length missed))

  abbrev Answers :
      ConnectionWriter o
      → List ServerEnvelope
      → ℤ
      → ResumePlan
      → List ServerEnvelope × ResyncReason
      → Type 0
  Answers w history time_ms plan (missed, reason) =
      Stays o w.tx (missed ++ answer_to history time_ms missed reason ∷ [])
      → ((answer o w (ok time_ms) plan).1 ≡ ok tt)
        × Resumes w (answer o w (ok time_ms) plan).0 history missed
            (answer_to history time_ms missed reason)

  plain_answer :
      (w w' : ConnectionWriter o) (history : List ServerEnvelope) (e : ServerEnvelope)
      → Sends o w w' history e
      → Resumes w w' history [] e
  plain_answer w w' history e s = record { live = s.live; queued = s.queued }

  answer-fresh :
      (w : ConnectionWriter o) (history : List ServerEnvelope) (time_ms : ℤ)
      → IsLive o w history
      → length history < u64_max
      → Answers w history time_ms fresh_start ([], fresh)
  unfolding answer
  answer-fresh w history time_ms l room there =
      let (done, s) = send_event-Sends o w history time_ms (resync fresh 0) l there.0 room in
      (done, plain_answer w _ history _ s)

  answer-unavailable :
      (w : ConnectionWriter o) (history : List ServerEnvelope) (time_ms : ℤ)
      → IsLive o w history
      → length history < u64_max
      → Answers w history time_ms cannot_replay ([], unavailable)
  unfolding answer
  answer-unavailable w history time_ms l room there =
      let (done, s) = send_event-Sends o w history time_ms (resync unavailable 0) l there.0 room in
      (done, plain_answer w _ history _ s)

  answer_behind :
      (w : ConnectionWriter o) (history es : List ServerEnvelope) (time_ms : ℤ)
      (event : ServerEvent) (t : Tx)
      → IsLive o w history
      → length history < u64_max
      → sent t ≡ sent w.tx ++ es
      → is_closed t ≡ false
      → ((send_event o (record w { tx = t }) (ok time_ms) event).1 ≡ ok tt)
        × Resumes w
            (send_event o (record w { tx = t }) (ok time_ms) event).0
            history
            es
            (envelope (suc (length history)) time_ms event)
  answer_behind w history es time_ms event t l room queued there =
      let w' : ConnectionWriter o = record w { tx = t } in
      let still : IsLive o w' history = record { window = l.window; counted = l.counted } in
      let (done, s) = send_event-Sends o w' history time_ms event still there room in
      let e = envelope (suc (length history)) time_ms event in
      (
        done,
        record {
          live = s.live;
          queued = s.queued ∙ ap (λ x. x ++ e ∷ []) queued ∙ append_assoc (sent w.tx) es (e ∷ []);
        },
      )

  answer-replay :
      (w : ConnectionWriter o) (history : List ServerEnvelope) (time_ms : ℤ)
      (es : List ServerEnvelope)
      → IsLive o w history
      → length history < u64_max
      → Answers w history time_ms (replay_from es) (es, replayed)
  unfolding answer replay_envelopes
  answer-replay w history time_ms es l room there =
      let e = answer_to history time_ms es replayed in
      let (done, queued, still) = resend_all es (e ∷ []) w.tx there in
      rw (done, answer)
        (answer_behind w history es time_ms (resync replayed (length es)) (resend o w.tx es).0 l
          room queued still.0)

  answer-plan :
      (w : ConnectionWriter o) (history : List ServerEnvelope) (time_ms : ℤ)
      (a : Option (List ServerEnvelope))
      → IsLive o w history
      → length history < u64_max
      → Answers w history time_ms (plan_of a) (owed a)
  answer-plan w history time_ms none l room = answer-unavailable w history time_ms l room
  answer-plan w history time_ms (some es) l room = answer-replay w history time_ms es l room

  resume_plan-Answers :
      (w : ConnectionWriter o) (history : List ServerEnvelope) (time_ms : ℤ) (r : Resume)
      (l : IsLive o w history)
      → length history < u64_max
      → Answers w history time_ms
          (resume_plan o w r)
          (due l.window.evicted history w.connection_id r)
  unfolding resume_plan
  resume_plan-Answers w history time_ms r l room = elim (Bool-cases (r.last_seq == 0)) [
    | inl first_time ↦ rw first_time (answer-fresh w history time_ms l room)
    | inr later ↦ elim (Bool-cases (names r.connection_id w.connection_id)) [
      | inr other ↦ rw (later, other) (answer-unavailable w history time_ms l room)
      | inl mine ↦
          rw (later, mine, after-Tracks w.replay history r.last_seq l.window room)
            (answer-plan w history time_ms (answer_of l.window.evicted history r.last_seq) l room)
    ]
  ]

  -- With a readable clock, and a receiver that stays while the answer and what comes before it are
  -- sent, a resume succeeds. It sends again exactly the history behind the client's position when
  -- the position names this connection and all of that is retained, and nothing otherwise; then the
  -- answer, under the next sequence, with the reason and the number.
  pub resume-Resumes :
      (w : ConnectionWriter o) (history missed : List ServerEnvelope) (reason : ResyncReason)
      (time_ms : ℤ) (r : Resume) (l : IsLive o w history)
      → length history < u64_max
      → due l.window.evicted history w.connection_id r ≡ (missed, reason)
      → Stays o w.tx (missed ++ answer_to history time_ms missed reason ∷ [])
      → ((resume o w (ok time_ms) r).1 ≡ ok tt)
        × Resumes w
            (resume o w (ok time_ms) r).0
            history
            missed
            (answer_to history time_ms missed reason)
  unfolding resume
  resume-Resumes w history missed reason time_ms r l room owes there =
      subst (Answers w history time_ms (resume_plan o w r)) owes
        (resume_plan-Answers w history time_ms r l room) there

  -- What a client that saw the first `last_seq` envelopes of this connection, all later ones
  -- retained, is sent when it resumes: with a readable clock and a receiver that stays, numbers that
  -- run on from `last_seq` without a gap, one for each envelope that it missed and one for the
  -- answer.
  pub resume-Consecutive :
      (w : ConnectionWriter o) (history : List ServerEnvelope) (time_ms : ℤ) (r : Resume)
      (l : IsLive o w history)
      → length history < u64_max
      → 1 ≤ r.last_seq
      → r.connection_id ≡ some w.connection_id
      → length l.window.evicted ≤ r.last_seq
      → r.last_seq ≤ length history
      → Stays o w.tx (
          drop r.last_seq history
          ++ answer_to history time_ms (drop r.last_seq history) replayed ∷ [])
      → ((resume o w (ok time_ms) r).1 ≡ ok tt)
        × (es : List ServerEnvelope) × (sent (resume o w (ok time_ms) r).0.tx ≡ sent w.tx ++ es)
        × Consecutive r.last_seq es
        × (r.last_seq + length es ≡ suc (length history))
  unfolding envelope
  resume-Consecutive w history time_ms r l room some_seen same kept seen there =
      let missed = drop r.last_seq history in
      let e = answer_to history time_ms missed replayed in
      let (done, resumed) =
        resume-Resumes w history missed replayed time_ms r l room
          (due-retained l.window.evicted history w.connection_id r some_seen same kept seen)
          there in
      (
        done,
        missed ++ e ∷ [],
        resumed.queued,
        Consecutive-append r.last_seq missed _
            (Consecutive-drop_self r.last_seq history seen l.window.numbered)
            (omega (arith, length-drop r.last_seq history)),
        omega (arith, length-append missed (e ∷ []), length-drop r.last_seq history),
      )
