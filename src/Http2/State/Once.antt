-- ===== src/Http2/State/Once.antt =====
-- The GOAWAY of src/http2/state/state_goaway.rs and the pong of state_ping_pong.rs are sent once.
use dmeng.Prelude.{◌≡◌, inl, inr, Option-cases, ◌↔◌, true, none, some, arith}
use dmeng.Prelude.Poll.{pending, ok, is_value}
use dmeng.Http2.Frame.{GoAway, Ping, go_away, ping, control_frame}
use dmeng.Http2.Platform.{Platform}
use dmeng.Http2.Codec.{Codec, poll_ready, send_frame}
use dmeng.Http2.Codec.Stream.{send_frame-ne-pending}
use dmeng.Http2.State.GoAway as GoAwayState
use dmeng.Http2.State.GoAway.{StateGoAway}
use dmeng.Http2.State.PingPong
use dmeng.Http2.State.PingPong.{StatePingPong}

module _ (p : Platform) (c : Codec p) where
  -- A poll that waits keeps a GOAWAY that is to be sent. One that answers with a reason has put the frame
  -- that was waiting into the codec, and answers with the reason of that frame; none is left. One that
  -- answers `None` found no frame and did not touch the codec. The reason kept for
  -- `last_goaway_reason` and `close_now` never change.
  goaway_once :
      (s : StateGoAway)
      → let (out, s', c') = GoAwayState.poll_handle p s c in
        (out ≡ pending → s' ≡ s)
        × ((frame : GoAway)
            → s.goaway ≡ some frame
            → is_value out ≡ true
            → (out ≡ ok (some frame.reason))
              × (s'.goaway ≡ none)
              × (c' ≡ (send_frame p (control_frame (go_away frame)) (poll_ready p c).1).1))
        × ((out ≡ ok none) ↔ (s.goaway ≡ none))
        × (s.goaway ≡ none → (s' ≡ s) × (c' ≡ c))
        × (s'.reason ≡ s.reason)
        × (s'.close_now ≡ s.close_now)
  unfolding GoAwayState.poll_handle
  goaway_once s = elim (Option-cases s.goaway) [
    | inl e ↦ ground arith
    | inr (frame, e) ↦
        ground (arith, send_frame-ne-pending p (control_frame (go_away frame)) (poll_ready p c).1)
  ]

  -- The same of the ping to be answered: kept where the poll waits, answered by its pong and cleared
  -- where it is ok; with no ping the codec is not touched.
  pong_once :
      (s : StatePingPong)
      → let (out, s', c') = PingPong.poll_handle p s c in
        (out ≡ pending → s' ≡ s)
        × ((received : Ping)
            → s.ping ≡ some received
            → is_value out ≡ true
            → (s'.ping ≡ none)
              × (c'
                  ≡ (send_frame p
                      (control_frame (ping (p.ret_pong received)))
                      (poll_ready p c).1).1))
        × (s.ping ≡ none → (out ≡ ok tt) × (s' ≡ s) × (c' ≡ c))
  unfolding PingPong.poll_handle
  pong_once s = elim (Option-cases s.ping) [
    | inl e ↦ ground arith
    | inr (received, e) ↦ ground (
      arith,
      send_frame-ne-pending p (control_frame (ping (p.ret_pong received))) (poll_ready p c).1,
    )
  ]
