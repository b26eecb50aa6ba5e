-- ===== src/Http2/Control/Receive/Steps.antt =====
-- The control block of src/http2/control.rs over any sequence of frames received, data passed on and
-- requests handed out.
use dmeng.Prelude.{ℕ, ◌≢◌, Bool}
use dmeng.Prelude.Poll.{panic, spin}
use dmeng.Http2.Frame.{Frame}
use dmeng.Http2.Platform.{Platform}
use dmeng.Http2.State.Settings.{ControlConfig}
use dmeng.Http2.Control
use dmeng.Http2.Control.{Control}
use dmeng.Http2.Control.Receive.{recv_frame, poll_recv_frame, build_request_frame}
use dmeng.Http2.Control.Receive.Ready.{IsReady, build_request_frame-IsReady}
use dmeng.Http2.Control.Receive.Polls.{IsUnique}
use dmeng.Http2.Control.Receive.Finishes.{poll_recv_frame-IsReady}
use dmeng.Http2.Control.Receive.Keys.{recv_frame-IsUnique, build_request_frame-IsUnique}
use dmeng.Http2.Control.Receive.Receives.{ComesOnce, recv_frame-IsReady}

module _ (p : Platform) where
  -- What `recv_frame`, `poll_recv_frame` and `build_request_frame` make of a new control block, in any
  -- order, where END_HEADERS comes once for each stream before its request is handed out.
  pub data Reached : Control p → Type 0 where
    started :
        (config : ControlConfig) (is_server : Bool) (now : ℕ)
        → Reached (Control.new p config is_server now)
    received :
        (f : Frame p.HeaderMap) (k : Control p)
        → Reached k
        → ComesOnce p f k
        → Reached (recv_frame p f k).1
    passed_on : (k : Control p) → Reached k → Reached (poll_recv_frame p k).1
    handed_out : (k : Control p) → Reached k → Reached (build_request_frame p k).1

  Reached-IsReady : (k : Control p) → Reached k → IsReady p k × IsUnique k.recv_frames
  unfolding Control.new
  Reached-IsReady _ (started config is_server now) = (record { waiting = tt }, tt)
  Reached-IsReady _ (received f k before once) =
      let (v, u) = Reached-IsReady k before in
      (recv_frame-IsReady p f k v once, recv_frame-IsUnique p f k u)
  Reached-IsReady _ (passed_on k before) =
      let (v, u) = Reached-IsReady k before in poll_recv_frame-IsReady p k v u
  Reached-IsReady _ (handed_out k before) =
      let (v, u) = Reached-IsReady k before in
      ((build_request_frame-IsReady p k v).2, build_request_frame-IsUnique p k u)

  -- However frames are received, data is passed on and requests are handed out from a new control block
  -- on, where END_HEADERS comes once for each stream before its request is handed out:
  -- `build_request_frame` neither panics nor loops, and every stream that is still ready afterwards is
  -- there and not built.
  pub build_request_frame-safe :
      (k : Control p)
      → Reached k
      → let (out, k') = build_request_frame p k in (out ≢ panic) × (out ≢ spin) × IsReady p k'
  build_request_frame-safe k reached = build_request_frame-IsReady p k (Reached-IsReady k reached).0
