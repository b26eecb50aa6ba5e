-- ===== src/Http2/Examples/State.antt =====
-- Runs of the state machines of src/http2/state.
use dmeng.Prelude.{ℕ, ◌≡◌, ◌≢◌, ◌⊎◌, ◌↔◌, refl, true, false, none, some, [], ◌∷◌, ◌++◌, take}
use dmeng.Prelude.Poll.{ok, pending, spin, is_value}
use dmeng.Error.{Bytes}
use dmeng.Http2.Frame.{Settings}
use dmeng.Http2.Codec
use dmeng.Http2.Codec.{poll_ready, send_frame}
use dmeng.Http2.State.Handshake
use dmeng.Http2.State.Handshake.{Handshaking, StateHandshake, reading_preface}
use dmeng.Http2.State.Handshake.Flushes.{Written, flush-Written}
use dmeng.Http2.State.Handshake.Preface.{input, reading_preface-resumes}
use dmeng.Http2.State.Handshake.Total.{poll_handle-ne-spin}
use dmeng.Http2.State.Settings
use dmeng.Http2.State.Settings.{
  ControlConfig, LocalState, StateSettings, wait_ack, protocol_error, apply_to_codec, recv_setting,
  send_settings, send,
}
use dmeng.Http2.State.Settings.Rounds.{Takes, Acknowledges, poll_handle-round}
use dmeng.Http2.Examples.{Wire, lists, lists-Lawful, lists-Progresses, no_settings}

abbrev wire : Wire
wire = record { out = []; inc = 73 ∷ 1 ∷ 2 ∷ []; limit = 1 }

-- The middle of the preface is in the read buffer, its end still on the way.
abbrev codec : Codec.Codec lists
codec = record {
  io = wire;
  read_buf = 82 ∷ [];
  decoder = tt;
  max_header_list_size = 4096;
  binary = [];
  cursor = 0;
  max_frame_size = 16384;
  header_index = tt;
  header_table_size = 4096;
  max_send_frame_size = 16384;
}

abbrev at_second : StateHandshake
at_second = record { state = reading_preface 1; is_client = false }

reading_preface-resumes_example :
    let (out, h', c') = Handshake.poll_handle lists at_second codec in
    (out ≡ ok tt
      → (h'.state ≡ Handshaking.done)
        × (80 ∷ 82 ∷ 73 ∷ 1 ∷ 2 ∷ [] ≡ 80 ∷ 82 ∷ 73 ∷ input lists lists-Lawful c'))
    × (out ≡ pending
        → (pos' : ℕ) × (h'.state ≡ reading_preface pos')
          × (80 ∷ 82 ∷ 73 ∷ 1 ∷ 2 ∷ [] ≡ take pos' lists.magic ++ input lists lists-Lawful c'))
unfolding lists-Lawful
reading_preface-resumes_example = reading_preface-resumes lists lists-Lawful at_second 1 codec refl

-- The poll gets to the end of the preface, and leaves the two bytes after it.
preface_read : (Handshake.poll_handle lists at_second codec).0 ≡ ok tt
unfolding Handshake.poll_handle Handshake.handle_loop Handshake.read_preface Handshake.preface_loop
    Codec.read
preface_read = refl

abbrev answer : Bytes
answer = 4 ∷ 5 ∷ 6 ∷ []

flush-Written_example :
    let r = Handshake.flush lists answer codec in
    Written lists lists-Lawful answer codec r.0 r.1 r.2
flush-Written_example = flush-Written lists lists-Lawful answer codec

poll_handle-ne-spin_example : (Handshake.poll_handle lists at_second codec).0 ≢ spin
poll_handle-ne-spin_example = poll_handle-ne-spin lists lists-Progresses at_second codec

abbrev config : ControlConfig
config = record {
  next_stream_id = 2;
  initial_max_send_streams = 100;
  max_send_buffer_size = 65535;
  reset_stream_duration = 0;
  reset_stream_max = 1;
  remote_reset_stream_max = 1;
  settings = no_settings;
}

abbrev mine : Settings
mine = record no_settings { max_frame_size = some 32768 }

abbrev theirs : Settings
theirs = record no_settings { max_frame_size = some 20000 }

abbrev both : StateSettings
both = record { state = send mine; remote = some theirs }

poll_handle-round_example :
    let (out, s', c', config') = Settings.poll_handle lists both codec config in
    ((s'.state ≡ send mine) ⊎ (s'.state ≡ wait_ack mine))
    × (is_value out ≡ true
        → (s'.state ≡ wait_ack mine)
          × (s'.remote ≡ none)
          × (config'.settings ≡ theirs)
          × ((out ≡ ok false) ↔ (both.state ≡ LocalState.done)))
    × (is_value out ≡ true
        → (d : Codec.Codec lists) × Takes lists mine codec d
          × Acknowledges lists (some theirs) d c')
    × (is_value out ≡ false → (s'.remote ≡ some theirs) × (config' ≡ config))
poll_handle-round_example = poll_handle-round lists both codec config
