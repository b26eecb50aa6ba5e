-- ===== src/Http2/State/Settings.antt =====
-- src/http2/state/state_settings.rs, and `ControlConfig` of src/http2/control.rs: our SETTINGS are sent
-- and await their acknowledgement, and the peer's are acknowledged and applied.
pub mod Rounds
use dmeng.Prelude.{ℕ, Bool, true, false, Option, none, some}
use dmeng.Prelude.Poll.{Outcome, pending, ok, err, panic, spin}
use dmeng.Error.{ProtError, extension, library_go_away}
use dmeng.Http2.Frame.{Settings, settings as settings_kind, control_frame}
use dmeng.Http2.Platform.{Platform}
use dmeng.Http2.Codec.{
  Codec, poll_ready, send_frame, set_send_header_table_size, set_max_send_frame_size,
}

pub record ControlConfig : Type 0 where
  pub next_stream_id : ℕ
  pub initial_max_send_streams : ℕ
  pub max_send_buffer_size : ℕ
  pub reset_stream_duration : ℕ
  pub reset_stream_max : ℕ
  pub remote_reset_stream_max : ℕ
  pub settings : Settings

unfoldable pub apply_remote_settings : Settings → ControlConfig → ControlConfig
apply_remote_settings s config = record config { settings = s }

abbrev pub default_initial_window_size : ℕ
default_initial_window_size = 65535

unfoldable pub get_initial_window_size : ControlConfig → ℕ
get_initial_window_size config = elim config.settings.initial_window_size [
  | some size ↦ size
  | none ↦ default_initial_window_size
]

pub data LocalState : Type 0 where
  send : Settings → LocalState
  wait_ack : Settings → LocalState
  done : LocalState

pub record StateSettings : Type 0 where
  pub state : LocalState
  pub remote : Option Settings

unfoldable pub new : Settings → StateSettings
new s = record { state = send s; remote = none }

unfoldable pub set_settings : Settings → Bool → StateSettings → StateSettings
set_settings setting true s = record s { state = LocalState.done }
set_settings setting false s = record s { state = send setting }

unfoldable pub set_settings_done : StateSettings → StateSettings
set_settings_done s = record s { state = LocalState.done }

-- REASON PROTOCOL_ERROR.
abbrev pub protocol_error : ℕ
protocol_error = 1

-- `assert!(!setting.is_ack())`, then refused until the last exchange is done.
unfoldable pub send_settings :
    Settings → StateSettings → Outcome ProtError (Unit {0}) × StateSettings
send_settings setting s = elim setting.is_ack [
  | true ↦ (panic, s)
  | false ↦ elim s.state [
    | send _ ↦ (err (extension ""), s)
    | wait_ack _ ↦ (err (extension ""), s)
    | LocalState.done ↦ (ok tt, record s { state = send setting })
  ]
]

module _ (p : Platform) where
  -- What both ways of applying settings do to the codec.
  limit_table : Option ℕ → Codec p → Codec p
  limit_table none c = c
  limit_table (some size) c = set_send_header_table_size p size c

  limit_frame : Option ℕ → Codec p → Codec p
  limit_frame none c = c
  limit_frame (some size) c = set_max_send_frame_size p size c

  unfoldable pub apply_to_codec : Settings → Codec p → Codec p
  unfolding limit_table limit_frame set_send_header_table_size set_max_send_frame_size
  apply_to_codec s c = limit_frame s.max_frame_size (limit_table s.header_table_size c)

  -- The first `match` of `poll_handle`: is an acknowledgement awaited?
  send_local : StateSettings → Codec p → Outcome ProtError Bool × StateSettings × Codec p
  send_local s c = elim s.state [
    | send mine ↦
        let (sent, c') = send_frame p (control_frame (settings_kind mine)) c in
        elim sent [
          | ok n ↦ (ok true, record s { state = wait_ack mine }, c')
          | pending ↦ (pending, s, c')
          | err e ↦ (err e, s, c')
          | panic ↦ (panic, s, c')
          | spin ↦ (spin, s, c')
        ]
    | wait_ack _ ↦ (ok true, s, c)
    | LocalState.done ↦ (ok false, s, c)
  ]

  acknowledge :
      Option Settings
      → Bool
      → StateSettings
      → Codec p
      → ControlConfig
      → Outcome ProtError Bool × StateSettings × Codec p × ControlConfig
  unfolding apply_remote_settings apply_to_codec
  acknowledge none is_wait s c config = (ok is_wait, record s { remote = none }, c, config)
  acknowledge (some theirs) is_wait s c config =
      let (room, c') = poll_ready p c in
      elim room [
        | pending ↦ (pending, s, c', config)
        | err e ↦ (err e, s, c', config)
        | panic ↦ (panic, s, c', config)
        | spin ↦ (spin, s, c', config)
        | ok u ↦
            let (sent, c'') = send_frame p (control_frame (settings_kind p.settings_ack)) c' in
            elim sent [
              | ok n ↦ (
                ok is_wait,
                record s { remote = none },
                apply_to_codec theirs c'',
                apply_remote_settings theirs config,
              )
              | pending ↦ (pending, s, c'', config)
              | err e ↦ (err e, s, c'', config)
              | panic ↦ (panic, s, c'', config)
              | spin ↦ (spin, s, c'', config)
            ]
      ]

  unfoldable pub poll_handle :
      StateSettings
      → Codec p
      → ControlConfig
      → Outcome ProtError Bool × StateSettings × Codec p × ControlConfig
  unfolding send_local acknowledge
  poll_handle s c config =
      let (out, s', c') = send_local s c in
      elim out [
        | ok is_wait ↦ acknowledge s'.remote is_wait s' c' config
        | pending ↦ (pending, s', c', config)
        | err e ↦ (err e, s', c', config)
        | panic ↦ (panic, s', c', config)
        | spin ↦ (spin, s', c', config)
      ]

  -- An acknowledgement applies the settings that this side had sent.
  recv_ack :
      LocalState
      → StateSettings
      → Codec p
      → ControlConfig
      → Outcome ProtError Bool × StateSettings × Codec p × ControlConfig
  unfolding apply_remote_settings apply_to_codec library_go_away
  recv_ack (wait_ack mine) s c config = (
    ok true,
    record s { state = LocalState.done },
    apply_to_codec mine c,
    apply_remote_settings mine config,
  )
  recv_ack (send mine) s c config = (err (library_go_away protocol_error), s, c, config)
  recv_ack LocalState.done s c config = (err (library_go_away protocol_error), s, c, config)

  unfoldable pub recv_setting :
      StateSettings
      → Codec p
      → Settings
      → ControlConfig
      → Outcome ProtError Bool × StateSettings × Codec p × ControlConfig
  unfolding recv_ack
  recv_setting s c setting config = elim setting.is_ack [
    | true ↦ recv_ack s.state s c config
    | false ↦ (
      ok (elim s.state [ LocalState.done ↦ true | _ ↦ false ]),
      record s { remote = some setting },
      c,
      config,
    )
  ]
