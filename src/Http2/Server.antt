-- ===== src/Http2/Server.antt =====
-- src/http2/server_connection.rs: an HTTP/2 connection of a server: its state, its errors and its polls.
-- The channel of pushed responses, and `incoming` that selects over it, are left out.
use dmeng.Prelude.{ℕ, zero, suc, true, false, Option, none, some, [], ◌==◌, if◌then◌else◌}
use dmeng.Prelude.Poll.{Outcome, pending, ok, err, panic, spin, ◌>>>◌}
use dmeng.Error.{Bytes, ProtError, Reason, Initiator, library, remote, go_away}
use dmeng.Layer.Timeout
use dmeng.Layer.Timeout.{TimeoutLayer, opened}
use dmeng.Http2.Frame.{GoAway}
use dmeng.Http2.Platform.{Platform}
use dmeng.Http2.Codec
use dmeng.Http2.State.GoAway.{no_error}
use dmeng.Http2.Builder.{Builder}
use dmeng.Http2.InnerStream.{RecvRequest}
use dmeng.Http2.Control
use dmeng.Http2.Control.{Control, Conn, last_goaway_reason, go_away_now_data}
use dmeng.Http2.Control.Poll

pub data State : Type 0 where
  open_ : State
  closing : Reason → Initiator → State
  closed : Reason → Initiator → State

pub record ServerH2Connection (p : Platform) : Type 0 where
  pub inner : Conn p
  pub state : State
  pub timeout : Option TimeoutLayer

module _ (p : Platform) where
  unfoldable pub new : ℕ → p.Io → Builder → ServerH2Connection p
  new now io builder = record {
    inner = record {
      control =
          Control.new p
            (record {
              next_stream_id = 2;
              initial_max_send_streams = 0;
              max_send_buffer_size = builder.max_send_buffer_size;
              reset_stream_duration = builder.reset_stream_duration;
              reset_stream_max = builder.reset_stream_max;
              remote_reset_stream_max = builder.pending_accept_reset_stream_max;
              settings = builder.settings;
            })
            true now;
      codec = Codec.new p io;
    };
    state = open_;
    timeout = none;
  }

  unfoldable pub set_read_timeout : Option ℕ → ServerH2Connection p → ServerH2Connection p
  set_read_timeout d c = record c { timeout = some (Timeout.set_read_timeout d (opened c.timeout)) }

  unfoldable pub set_write_timeout : Option ℕ → ServerH2Connection p → ServerH2Connection p
  set_write_timeout d c = record c {
    timeout = some (Timeout.set_write_timeout d (opened c.timeout));
  }

  unfoldable pub set_timeout : Option ℕ → ServerH2Connection p → ServerH2Connection p
  set_timeout d c = record c { timeout = some (Timeout.set_timeout d (opened c.timeout)) }

  unfoldable pub set_ka_timeout : Option ℕ → ServerH2Connection p → ServerH2Connection p
  set_ka_timeout d c = record c { timeout = some (Timeout.set_ka_timeout d (opened c.timeout)) }

  unfoldable pub set_timeout_layer :
      Option TimeoutLayer → ServerH2Connection p → ServerH2Connection p
  set_timeout_layer layer c = record c { timeout = layer }

  unfoldable pub set_cache_buf : Bytes → Bytes → ServerH2Connection p → ServerH2Connection p
  set_cache_buf read_buf write_buf c = record c {
    inner = record (c.inner) { codec = Codec.set_cache_buf p read_buf write_buf c.inner.codec };
  }

  unfoldable pub set_handshake_status : Bytes → ServerH2Connection p → ServerH2Connection p
  set_handshake_status binary c = record c {
    inner = record (c.inner) {
      control = Control.set_handshake_status p binary false c.inner.control;
    };
  }

  -- The timeouts are looked at first; `now` is the time.
  unfoldable pub check_timeout :
      ℕ → ServerH2Connection p → Outcome ProtError (Unit {0}) × ServerH2Connection p
  check_timeout now c = elim c.timeout [
    | none ↦ (ok tt, c)
    | some t ↦
        let r =
          Timeout.poll_ready now "server" (Control.get_ready_time p c.inner.control)
            (Control.is_read_end p c.inner.control)
            (Control.is_write_end p c.inner.codec c.inner.control)
            (Control.is_idle p c.inner.codec c.inner.control) t in
        (r.0, record c { timeout = some r.1 })
  ]

  set_control : Control p → ServerH2Connection p → ServerH2Connection p
  set_control k c = record c { inner = record (c.inner) { control = k } }

  -- A result of the poll that is no request. `none` is that of a request, which is unreachable.
  unfoldable pub handle_poll_result :
      Option ProtError → ServerH2Connection p → Outcome ProtError (Unit {0}) × ServerH2Connection p
  unfolding set_control
  handle_poll_result none c = (ok tt, record c { state = closing no_error library })
  handle_poll_result (some (go_away d reason initiator)) c =
      if last_goaway_reason p c.inner.control == reason
      then (ok tt, record c { state = closing reason initiator })
      else (ok tt, set_control (go_away_now_data p reason d c.inner.control) c)
  handle_poll_result (some e) c = (err e, record c { state = closing no_error library })

  abbrev theirs : Option GoAway → Bytes × Reason
  theirs none = ([], no_error)
  theirs (some frame) = (frame.debug_data, frame.reason)

  -- The peer's error is taken out of the control block.
  unfoldable pub take_error :
      Reason
      → Initiator
      → ServerH2Connection p
      → Outcome ProtError (Unit {0}) × ServerH2Connection p
  unfolding set_control
  take_error ours initiator c =
      let r = theirs c.inner.control.error in
      let c' = set_control (record (c.inner.control) { error = none }) c in
      if r.1 == no_error
      then (if ours == no_error then ok tt else err (go_away [] ours initiator), c')
      else (err (go_away r.0 r.1 remote), c')

  unfoldable pub poll_write :
      ServerH2Connection p → Outcome ProtError (Unit {0}) × ServerH2Connection p
  poll_write c = let r = Poll.poll_write p c.inner in (r.0, record c { inner = r.1 })

  unfoldable pub poll_request :
      ℕ
      → ℕ
      → ServerH2Connection p
      → Outcome ProtError (Option (RecvRequest p)) × ServerH2Connection p
  unfolding check_timeout
  poll_request fuel now c = check_timeout now c >>> λ u d.
      (let r = Poll.poll_request p fuel d.inner in (r.0, record d { inner = r.1 }))

  -- `Stream::poll_next`: a request that is handed out, or the end, or an error. `n` bounds the rounds.
  unfoldable pub poll_next :
      ℕ
      → ℕ
      → ℕ
      → ServerH2Connection p
      → Outcome ProtError (Option (RecvRequest p)) × ServerH2Connection p
  unfolding poll_request handle_poll_result take_error
  poll_next zero fuel now c = (spin, c)
  poll_next (suc n) fuel now c = elim c.state [
    | open_ ↦
        let r = poll_request fuel now c in
        elim r.0 [
          | ok (some m) ↦ (ok (some m), r.1)
          | ok none ↦ handle_poll_result none r.1 >>> λ u d. poll_next n fuel now d
          | err e ↦ handle_poll_result (some e) r.1 >>> λ u d. poll_next n fuel now d
          | pending ↦ (pending, r.1)
          | panic ↦ (panic, r.1)
          | spin ↦ (spin, r.1)
        ]
    | closing reason initiator ↦
        let s = Codec.shutdown p c.inner.codec in
        let d = record c { inner = record (c.inner) { codec = s.1 } } in
        elim s.0 [
          | ok u ↦ poll_next n fuel now (record d { state = closed reason initiator })
          | pending ↦ (pending, d)
          | err e ↦ (err e, d)
          | panic ↦ (panic, d)
          | spin ↦ (spin, d)
        ]
    | closed reason initiator ↦ take_error reason initiator c >>> λ u d. (ok none, d)
  ]
