-- ===== src/Http2/Control/Poll.antt =====
-- src/http2/control.rs: `poll_write` and `poll_request`. The loop of `poll_request` takes fuel, one for
-- each frame that it may still receive in this poll. `has_change` is never true there, so a round that
-- finds nothing to do waits.
use dmeng.Prelude.{ℕ, zero, suc, Bool, Option, none, some}
use dmeng.Prelude.Poll.{Outcome, pending, ok, err, panic, spin}
use dmeng.Error.{ProtError, library_go_away}
use dmeng.Http2.Frame
use dmeng.Http2.Frame.{Frame, Kind}
use dmeng.Http2.Platform.{Platform}
use dmeng.Http2.Codec
use dmeng.Http2.State.Handshake
use dmeng.Http2.State.Settings
use dmeng.Http2.State.GoAway
use dmeng.Http2.State.PingPong
use dmeng.Http2.PriorityQueue
use dmeng.Http2.InnerStream.{RecvRequest}
use dmeng.Http2.Control.{
  Conn, M, ◌>>=◌, ◌>>◌, return, fail_with, ignore_pending, encode_response, encode_request,
}
use dmeng.Http2.Control.Receive.{recv_frame, poll_recv_frame, build_request_frame}

module _ (p : Platform) where
  -- A step of one component, with the connection's codec.
  on_goaway : M p (Option ℕ)
  on_goaway s =
      let (out, g, c) = GoAway.poll_handle p s.control.goaway s.codec in
      (out, record { control = record s.control { goaway = g }; codec = c })

  on_ping : M p (Unit {0})
  on_ping s =
      let (out, g, c) = PingPong.poll_handle p s.control.ping_pong s.codec in
      (out, record { control = record s.control { ping_pong = g }; codec = c })

  on_queue : M p (Unit {0})
  on_queue s =
      let (out, q, c) = PriorityQueue.poll_handle p s.control.send_frames s.codec in
      (out, record { control = record s.control { send_frames = q }; codec = c })

  on_flush : M p (Unit {0})
  on_flush s = let (out, c) = Codec.flush p s.codec in (out, record s { codec = c })

  unfoldable pub on_handshake : M p (Unit {0})
  on_handshake s =
      let (out, h, c) = Handshake.poll_handle p s.control.handshake s.codec in
      (out, record { control = record s.control { handshake = h }; codec = c })

  on_setting : M p Bool
  on_setting s =
      let (out, h, c, config) = Settings.poll_handle p s.control.setting s.codec s.control.config in
      (out, record { control = record s.control { setting = h; config = config }; codec = c })

  on_streams : M p (Unit {0})
  on_streams s = let (out, k) = poll_recv_frame p s.control in (out, record s { control = k })

  unfoldable pub on_next : M p (Option (Frame p.HeaderMap))
  on_next s = let (out, c) = Codec.poll_next p s.codec in (out, record s { codec = c })

  encode_queued : M p (Unit {0})
  unfolding encode_response encode_request
  encode_queued s = (ok tt, record s { control = encode_request p (encode_response p s.control) })

  -- A reason ends the write with a GOAWAY.
  check_goaway : Option ℕ → M p (Unit {0})
  unfolding library_go_away
  check_goaway none = return tt
  check_goaway (some reason) = fail_with (library_go_away reason)

  unfoldable pub poll_write : M p (Unit {0})
  unfolding on_goaway on_ping on_queue on_flush encode_queued check_goaway
  poll_write = do
    encode_queued
    reason ← on_goaway
    check_goaway reason
    on_ping
    on_queue
    on_flush

  -- The `match` on a received frame.
  unfoldable pub receive : Frame p.HeaderMap → M p (Unit {0})
  receive frame s = elim frame.kind [
    | Frame.settings setting ↦
        let (out, h, c, config) =
          Settings.recv_setting p s.control.setting s.codec setting s.control.config in
        let s' : Conn p = record {
          control = record s.control { setting = h; config = config };
          codec = c;
        } in
        elim out [
          | ok b ↦ (ok tt, s')
          | pending ↦ (pending, s')
          | err e ↦ (err e, s')
          | panic ↦ (panic, s')
          | spin ↦ (spin, s')
        ]
    | Frame.payload b ↦ take_frame
    | Frame.headers h ↦ take_frame
    | Frame.priority v ↦ (
      ok tt,
      record s {
        control = record s.control {
          send_frames = PriorityQueue.priority_recv p v s.control.send_frames;
        };
      },
    )
    | Frame.push_promise id h ↦ (ok tt, s)
    | Frame.ping v ↦ (
      ok tt,
      record s {
        control = record s.control { ping_pong = PingPong.receive v s.control.ping_pong };
      },
    )
    | Frame.go_away e ↦ (ok tt, record s { control = record s.control { error = some e } })
    | Frame.window_update v ↦ (ok tt, s)
    | Frame.reset v ↦ (ok tt, s)
  ]
    where
      -- `let _ = self.recv_frame(frame, cx)?`: only an error is passed on.
      take_frame : Outcome ProtError (Unit {0}) × Conn p
      take_frame =
          let (out, k) = recv_frame p frame s.control in
          elim out [
            | ok b ↦ (ok tt, record s { control = k })
            | pending ↦ (ok tt, record s { control = k })
            | err e ↦ (err e, record s { control = k })
            | panic ↦ (panic, record s { control = k })
            | spin ↦ (spin, record s { control = k })
          ]

  -- Nothing more is received for now: hand out the next ready request, or report the peer's GOAWAY.
  unfoldable pub hand_out : M p (Option (RecvRequest p))
  unfolding library_go_away
  hand_out s =
      let (out, k) = build_request_frame p s.control in
      let s' : Conn p = record s { control = k } in
      elim out [
        | ok (some r) ↦ (ok (some r), s')
        | ok none ↦ elim k.error [
          | some e ↦ (err (library_go_away e.reason), s')
          | none ↦ (pending, s')
        ]
        | pending ↦ (pending, s')
        | err e ↦ (err e, s')
        | panic ↦ (panic, s')
        | spin ↦ (spin, s')
      ]

  -- The part of a round before the next frame is asked for.
  unfoldable pub prepare : M p (Unit {0})
  unfolding on_setting on_streams poll_write
  prepare = do on_setting; ignore_pending poll_write; on_streams

  unfoldable pub request_loop : ℕ → M p (Option (RecvRequest p))
  unfolding prepare on_next receive hand_out
  request_loop zero s = (spin, s)
  request_loop (suc fuel) s =
      let (ready, s₁) = prepare s in
      elim ready [
        | ok u ↦
            let (next, s₂) = on_next s₁ in
            elim next [
              | ok (some frame) ↦
                  let (received, s₃) = receive frame s₂ in
                  elim received [
                    | ok v ↦ request_loop fuel s₃
                    | pending ↦ (pending, s₃)
                    | err e ↦ (err e, s₃)
                    | panic ↦ (panic, s₃)
                    | spin ↦ (spin, s₃)
                  ]
              | ok none ↦ (ok none, s₂)
              | err e ↦ (err e, s₂)
              | pending ↦ hand_out s₂
              | panic ↦ (panic, s₂)
              | spin ↦ (spin, s₂)
            ]
        | pending ↦ (pending, s₁)
        | err e ↦ (err e, s₁)
        | panic ↦ (panic, s₁)
        | spin ↦ (spin, s₁)
      ]

  unfoldable pub poll_request : ℕ → M p (Option (RecvRequest p))
  unfolding on_handshake request_loop
  poll_request fuel = do on_handshake; request_loop fuel
