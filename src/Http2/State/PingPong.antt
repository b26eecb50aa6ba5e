-- ===== src/Http2/State/PingPong.antt =====
-- src/http2/state/state_ping_pong.rs: the last ping received waits for its answer.
use dmeng.Prelude.{Option, none, some}
use dmeng.Prelude.Poll.{Outcome, pending, ok, err, panic, spin}
use dmeng.Error.{ProtError}
use dmeng.Http2.Frame.{Ping, ping as ping_kind, control_frame}
use dmeng.Http2.Platform.{Platform}
use dmeng.Http2.Codec.{Codec, poll_ready, send_frame}

pub record StatePingPong : Type 0 where
  pub ping : Option Ping

unfoldable pub new : StatePingPong
new = record { ping = none }

unfoldable pub receive : Ping → StatePingPong → StatePingPong
receive ping s = record { ping = some ping }

module _ (p : Platform) where
  -- Where the codec is not ready the ping is put back; an error of the codec loses it.
  handle_ping : Option Ping → Codec p → Outcome ProtError (Unit {0}) × StatePingPong × Codec p
  handle_ping none c = (ok tt, record { ping = none }, c)
  handle_ping (some frame) c =
      let (room, c') = poll_ready p c in
      elim room [
        | pending ↦ (pending, record { ping = some frame }, c')
        | err e ↦ (err e, record { ping = none }, c')
        | panic ↦ (panic, record { ping = none }, c')
        | spin ↦ (spin, record { ping = none }, c')
        | ok u ↦
            let (sent, c'') = send_frame p (control_frame (ping_kind (p.ret_pong frame))) c' in
            elim sent [
              | ok n ↦ (ok tt, record { ping = none }, c'')
              | pending ↦ (pending, record { ping = none }, c'')
              | err e ↦ (err e, record { ping = none }, c'')
              | panic ↦ (panic, record { ping = none }, c'')
              | spin ↦ (spin, record { ping = none }, c'')
            ]
      ]

  unfoldable pub poll_handle :
      StatePingPong → Codec p → Outcome ProtError (Unit {0}) × StatePingPong × Codec p
  unfolding handle_ping
  poll_handle s c = handle_ping s.ping c
