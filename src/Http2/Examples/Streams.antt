-- ===== src/Http2/Examples/Streams.antt =====
-- Runs of the streams of src/http2: a request with two DATA frames, one with trailers, one whose data
-- comes after its end, and one whose trailers come before it is handed out.
use dmeng.Prelude.{◌≡◌, ◌≢◌, refl, Bool, true, false, none, some, List, [], ◌∷◌, ◌++◌}
use dmeng.Prelude.Poll.{ok, panic, spin}
use dmeng.Error.{Bytes}
use dmeng.Http2.Frame.{Frame, HeaderBlock}
use dmeng.Http2.State.Settings.{ControlConfig}
use dmeng.Http2.InnerStream.{InnerStream, empty, streaming, build_request, poll_push, poll_send}
use dmeng.Http2.InnerStream.Deliver.{Passes, poll_send-delivers}
use dmeng.Http2.InnerStream.Build.{
  data_frames, header_frame, build_request-joins, build_request-trailers, data_after_end-spins,
}
use dmeng.Http2.Control
use dmeng.Http2.Control.{Control}
use dmeng.Http2.Control.Receive.{recv_frame, poll_recv_frame, build_request_frame}
use dmeng.Http2.Control.Receive.Ready.{IsReady}
use dmeng.Http2.Control.Receive.Steps.{started, received, passed_on, build_request_frame-safe}
use dmeng.Http2.Examples.{Headers, lists, lists-ChannelLaws, no_settings}

abbrev get : HeaderBlock Headers
get = record { fields = []; status = none; method = some "GET" }

abbrev unbuilt : List (Frame Headers) → InnerStream lists
unbuilt frames = record {
  frames = frames;
  sender = none;
  content_len = 0;
  recv_len = 0;
  end_headers = true;
  end_stream = false;
  is_builder = false;
}

abbrev two_parts : List (Bytes × Bool)
two_parts = (1 ∷ 2 ∷ [], false) ∷ (3 ∷ [], true) ∷ []

-- Two frames of data wait, and trailers behind them.
abbrev trailed : InnerStream lists
trailed = record (unbuilt (data_frames 1 two_parts ++ header_frame 1 true get ∷ [])) {
  sender = some [];
  content_len = 9;
  is_builder = true;
}

poll_send-delivers_example :
    Passes lists lists-ChannelLaws trailed.frames [] (poll_send lists trailed)
unfolding lists-ChannelLaws
poll_send-delivers_example = poll_send-delivers lists lists-ChannelLaws trailed [] refl

abbrev whole_request : InnerStream lists
whole_request = unbuilt (header_frame 1 false get ∷ data_frames 1 two_parts)

build_request-joins_example :
    let (out, s') = build_request lists whole_request in
    (out
      ≡ ok (true, record { builder = 1; body = streaming (1 ∷ 2 ∷ 3 ∷ []) true; stream_id = none }))
    × (s'.frames ≡ [])
    × (s'.end_stream ≡ true)
    × (s'.is_builder ≡ true)
    × (s'.sender ≡ some [])
build_request-joins_example =
    build_request-joins lists 1 get two_parts whole_request 1 refl refl refl

abbrev one_part : List (Bytes × Bool)
one_part = (1 ∷ 2 ∷ [], false) ∷ []

abbrev with_trailers : InnerStream lists
with_trailers =
    unbuilt (header_frame 1 false get ∷ (data_frames 1 one_part ++ header_frame 1 true get ∷ []))

build_request-trailers_example :
    (build_request lists with_trailers).0
    ≡ ok (true, record { builder = 2; body = empty; stream_id = none })
build_request-trailers_example =
    build_request-trailers lists 1 get get one_part with_trailers 1 2 refl refl refl refl

abbrev past_end : InnerStream lists
past_end = unbuilt (header_frame 1 true get ∷ data_frames 1 one_part)

data_after_end-spins_example :
    let (out, s') = build_request lists past_end in
    (out ≡ ok (false, record { builder = 1; body = empty; stream_id = none }))
    × ((frame : Frame Headers) → (poll_push lists frame s').0 ≡ spin)
data_after_end-spins_example =
    data_after_end-spins lists 1 get one_part past_end 1 refl refl refl refl refl

abbrev pub config : ControlConfig
config = record {
  next_stream_id = 2;
  initial_max_send_streams = 100;
  max_send_buffer_size = 65535;
  reset_stream_duration = 0;
  reset_stream_max = 1;
  remote_reset_stream_max = 1;
  settings = no_settings;
}

abbrev pub control : Control lists
control = Control.new lists config true 0

abbrev one_received : Control lists
one_received = (recv_frame lists (header_frame 3 false get) control).1

abbrev then_polled : Control lists
then_polled = (poll_recv_frame lists one_received).1

build_request_frame-safe_example :
    let (out, k') = build_request_frame lists then_polled in
    (out ≢ panic) × (out ≢ spin) × IsReady lists k'
build_request_frame-safe_example = build_request_frame-safe lists then_polled (
    passed_on one_received (
      received (header_frame 3 false get) control (started config true 0)
        (λ ends. (unfold Control.new in refl, λ s known. absurd (unfold Control.new in cc known)))))
