-- ===== src/Realtime/Session/Beats.antt =====
-- When a connection is given up, by the frames that it handled.
use jiuyue.Base.{
  text_key, nat_key, ltb, if◌then◌else◌, ℕ, ◌+◌, ◌≤◌, ◌≡◌, refl, Bool, true, false, Option, none,
  some, arith,
}
use jiuyue.Contract.{ClientEvent}
use jiuyue.Realtime.Registry.{Channel}
use jiuyue.Realtime.Writer.{Outbound}
use jiuyue.Realtime.Cursor.{CursorStore}
use jiuyue.Realtime.Liveness.{ConnectionLiveness, record_beat, is_expired}
use jiuyue.Realtime.Session.{Hub, Given, Session, handle_frame}

abbrev pub is_beat : Option ClientEvent → Bool
is_beat none = false
is_beat (some (ClientEvent.ping p)) = true
is_beat (some (ClientEvent.send_message m)) = false
is_beat (some (ClientEvent.resume r)) = false
is_beat (some (ClientEvent.sync_cursor k)) = false
is_beat (some (ClientEvent.mark_read m)) = false
is_beat (some (ClientEvent.typing t)) = false

is_expired-record_beat :
    (l : ConnectionLiveness) (beat deadline now : ℕ)
    → beat ≤ now
    → is_expired (record_beat l beat) deadline now ≡ ltb (beat + deadline) now
unfolding is_expired record_beat
is_expired-record_beat l beat deadline now h = ground (arith, h)

module _ (c : Channel) (o : Outbound) (s : CursorStore) where
  -- A heartbeat sets the deadline of its connection anew: from then it has exactly the deadline's
  -- length. No other frame moves it, and a frame that does not decode neither.
  pub handle_frame-is_expired :
      (session : Session c o s) (hub : Hub c) (db : s.Db) (given : Given)
      (frame : Option ClientEvent) (deadline now : ℕ)
      → given.instant ≤ now
      → is_expired (handle_frame c o s session hub db given frame).0.liveness deadline now ≡ (
          if is_beat frame
          then ltb (given.instant + deadline) now
          else is_expired session.liveness deadline now)
  unfolding handle_frame
  handle_frame-is_expired session hub db given none deadline now h = refl
  handle_frame-is_expired session hub db given (some (ClientEvent.ping p)) deadline now h =
      is_expired-record_beat session.liveness given.instant deadline now h
  handle_frame-is_expired session hub db given (some (ClientEvent.send_message m)) deadline now h =
      refl
  handle_frame-is_expired session hub db given (some (ClientEvent.resume r)) deadline now h = refl
  handle_frame-is_expired session hub db given (some (ClientEvent.sync_cursor k)) deadline now h =
      refl
  handle_frame-is_expired session hub db given (some (ClientEvent.mark_read m)) deadline now h =
      refl
  handle_frame-is_expired session hub db given (some (ClientEvent.typing t)) deadline now h = refl
