-- ===== src/Http2/Builder.antt =====
-- src/http2/builder.rs: the configuration of an HTTP/2 connection. webparse's defaults are arguments.
use dmeng.Prelude.{ℕ, ◌-◌, ◌^◌, Bool, Option, none, some, ltb, if◌then◌else◌}
use dmeng.Prelude.Poll.{Outcome, ok, panic}
use dmeng.Error.{ProtError}
use dmeng.Http2.Frame.{Settings}

pub record Builder : Type 0 where
  pub reset_stream_duration : ℕ
  pub reset_stream_max : ℕ
  pub pending_accept_reset_stream_max : ℕ
  pub settings : Settings
  pub initial_target_connection_window_size : Option ℕ
  pub max_send_buffer_size : ℕ

unfoldable pub new : ℕ → ℕ → ℕ → Settings → ℕ → Builder
new secs stream_max remote_max settings buffer_size = record {
  reset_stream_duration = secs;
  reset_stream_max = stream_max;
  pending_accept_reset_stream_max = remote_max;
  settings = settings;
  initial_target_connection_window_size = none;
  max_send_buffer_size = buffer_size;
}

unfoldable pub initial_window_size : ℕ → Builder → Builder
initial_window_size size b = record b {
  settings = record (b.settings) { initial_window_size = some size };
}

unfoldable pub initial_connection_window_size : ℕ → Builder → Builder
initial_connection_window_size size b = record b {
  initial_target_connection_window_size = some size;
}

unfoldable pub max_frame_size : ℕ → Builder → Builder
max_frame_size max b = record b { settings = record (b.settings) { max_frame_size = some max } }

unfoldable pub max_header_list_size : ℕ → Builder → Builder
max_header_list_size max b = record b {
  settings = record (b.settings) { max_header_list_size = some max };
}

unfoldable pub max_concurrent_streams : ℕ → Builder → Builder
max_concurrent_streams max b = record b {
  settings = record (b.settings) { max_concurrent_streams = some max };
}

unfoldable pub set_enable_push : Bool → Builder → Builder
set_enable_push enable b = record b {
  settings = record (b.settings) { enable_push = some (if enable then 1 else 0) };
}

unfoldable pub max_concurrent_reset_streams : ℕ → Builder → Builder
max_concurrent_reset_streams max b = record b { reset_stream_max = max }

unfoldable pub max_pending_accept_reset_streams : ℕ → Builder → Builder
max_pending_accept_reset_streams max b = record b { pending_accept_reset_stream_max = max }

-- `assert!(max <= std::u32::MAX as usize)`.
unfoldable pub max_send_buffer_size : ℕ → Builder → Outcome ProtError Builder
max_send_buffer_size max b =
    if ltb (2 ^ 32 - 1) max then panic else ok (record b { max_send_buffer_size = max })

unfoldable pub reset_stream_duration : ℕ → Builder → Builder
reset_stream_duration dur b = record b { reset_stream_duration = dur }

unfoldable pub enable_connect_protocol : Builder → Builder
enable_connect_protocol b = record b {
  settings = record (b.settings) { enable_connect_protocol = some 1 };
}
