-- ===== src/Http2/State/GoAway.antt =====
-- src/http2/state/state_goaway.rs: a GOAWAY of this side, sent once.
use dmeng.Prelude.{Bool, true, false, Option, none, some}
use dmeng.Prelude.Poll.{Outcome, pending, ok, err, panic, spin}
use dmeng.Error.{ProtError, Reason}
use dmeng.Http2.Frame.{GoAway, go_away as go_away_kind, control_frame}
use dmeng.Http2.Platform.{Platform}
use dmeng.Http2.Codec.{Codec, poll_ready, send_frame}

abbrev pub no_error : Reason
no_error = 0

pub record StateGoAway : Type 0 where
  pub close_now : Bool
  pub goaway : Option GoAway
  pub reason : Reason

unfoldable pub new : StateGoAway
new = record { close_now = false; goaway = none; reason = no_error }

unfoldable pub go_away_now : GoAway → StateGoAway → StateGoAway
go_away_now frame s = record { close_now = true; reason = frame.reason; goaway = some frame }

unfoldable pub is_close_now : StateGoAway → Bool
is_close_now s = s.close_now

unfoldable pub reason : StateGoAway → Reason
reason s = s.reason

module _ (p : Platform) where
  -- The frame is taken out first, so the branch for `is_close_now` finds none, and answers `None` too.
  handle_goaway :
      Option GoAway
      → StateGoAway
      → Codec p
      → Outcome ProtError (Option Reason) × StateGoAway × Codec p
  handle_goaway none s c = (ok none, s, c)
  handle_goaway (some frame) s c =
      let taken = record s { goaway = none } in
      let (room, c') = poll_ready p c in
      elim room [
        | pending ↦ (pending, record s { goaway = some frame }, c')
        | err e ↦ (err e, taken, c')
        | panic ↦ (panic, taken, c')
        | spin ↦ (spin, taken, c')
        | ok u ↦
            let (sent, c'') = send_frame p (control_frame (go_away_kind frame)) c' in
            elim sent [
              | ok n ↦ (ok (some frame.reason), taken, c'')
              | pending ↦ (pending, taken, c'')
              | err e ↦ (err e, taken, c'')
              | panic ↦ (panic, taken, c'')
              | spin ↦ (spin, taken, c'')
            ]
      ]

  unfoldable pub poll_handle :
      StateGoAway → Codec p → Outcome ProtError (Option Reason) × StateGoAway × Codec p
  unfolding handle_goaway
  poll_handle s c = handle_goaway s.goaway s c
