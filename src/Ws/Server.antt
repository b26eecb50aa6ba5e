-- ===== src/Ws/Server.antt =====
-- src/ws/server_connection.rs: a WebSocket connection of a server. The record `Conn` holds the codec with
-- the control block.
use dmeng.Prelude.{ℕ, zero, suc, false, Option, none, some}
use dmeng.Prelude.Poll.{Outcome, pending, ok, err, panic, spin, ◌>>>◌}
use dmeng.Error.{Bytes, ProtError}
use dmeng.Layer.Timeout
use dmeng.Layer.Timeout.{TimeoutLayer, opened}
use dmeng.Ws.Platform.{Platform}
use dmeng.Ws.Codec
use dmeng.Ws.Control
use dmeng.Ws.Control.{Conn}
use dmeng.Ws.State.{WsState, open_, closing, closed, set_closing, set_closed, unwrap_or}

pub record ServerWsConnection (p : Platform) : Type 0 where
  pub conn : Conn p
  pub state : WsState p
  pub timeout : Option TimeoutLayer

module _ (p : Platform) where
  unfoldable pub new : p.Io → ServerWsConnection p
  new io = record {
    conn = record { control = Control.new p; codec = Codec.new p io false };
    state = open_;
    timeout = none;
  }

  unfoldable pub into_io : ServerWsConnection p → p.Io
  into_io c = c.conn.codec.io

  unfoldable pub set_read_timeout : Option ℕ → ServerWsConnection p → ServerWsConnection p
  set_read_timeout d c = record c { timeout = some (Timeout.set_read_timeout d (opened c.timeout)) }

  unfoldable pub set_write_timeout : Option ℕ → ServerWsConnection p → ServerWsConnection p
  set_write_timeout d c = record c {
    timeout = some (Timeout.set_write_timeout d (opened c.timeout));
  }

  unfoldable pub set_timeout : Option ℕ → ServerWsConnection p → ServerWsConnection p
  set_timeout d c = record c { timeout = some (Timeout.set_timeout d (opened c.timeout)) }

  unfoldable pub set_ka_timeout : Option ℕ → ServerWsConnection p → ServerWsConnection p
  set_ka_timeout d c = record c { timeout = some (Timeout.set_ka_timeout d (opened c.timeout)) }

  unfoldable pub set_timeout_layer :
      Option TimeoutLayer → ServerWsConnection p → ServerWsConnection p
  set_timeout_layer layer c = record c { timeout = layer }

  unfoldable pub set_cache_buf : Bytes → Bytes → ServerWsConnection p → ServerWsConnection p
  set_cache_buf read_buf write_buf c = record c {
    conn = record (c.conn) { codec = Codec.set_cache_buf p read_buf write_buf c.conn.codec };
  }

  unfoldable pub set_handshake_status : Bytes → ServerWsConnection p → ServerWsConnection p
  set_handshake_status binary c = record c {
    conn = record (c.conn) { control = Control.set_handshake_status p binary false c.conn.control };
  }

  unfoldable pub send_owned_message : p.Message → ServerWsConnection p → ServerWsConnection p
  send_owned_message msg c = record c {
    conn = record (c.conn) { control = Control.send_owned_message p msg c.conn.control };
  }

  unfoldable pub receiver_close : Option p.CloseData → ServerWsConnection p → ServerWsConnection p
  receiver_close data_ c = record c { state = set_closing p (unwrap_or p data_ p.normal) c.state }

  -- The timeouts are looked at first; `now` is the time.
  unfoldable pub check_timeout :
      ℕ → ServerWsConnection p → Outcome ProtError (Unit {0}) × ServerWsConnection p
  check_timeout now c = elim c.timeout [
    | none ↦ (ok tt, c)
    | some t ↦
        let r = Timeout.poll_ready now "server" now false (Control.is_write_end p c.conn) false t in
        (r.0, record c { timeout = some r.1 })
  ]

  -- `randoms` are the masks of the messages that go out.
  unfoldable pub poll_request :
      ℕ
      → (ℕ → ℕ)
      → ServerWsConnection p
      → Outcome ProtError (Option p.Message) × ServerWsConnection p
  unfolding check_timeout
  poll_request now randoms c = check_timeout now c >>> λ u d.
      let r = Control.poll_request p randoms d.conn in (r.0, record d { conn = r.1 })

  unfoldable pub poll_write :
      (ℕ → ℕ) → ServerWsConnection p → Outcome ProtError (Unit {0}) × ServerWsConnection p
  poll_write randoms c =
      let r = Control.poll_write p randoms c.conn in (r.0, record c { conn = r.1 })

  unfoldable pub shutdown :
      ServerWsConnection p → Outcome ProtError (Unit {0}) × ServerWsConnection p
  shutdown c =
      let r = Codec.shutdown p c.conn.codec in
      (r.0, record c { conn = record (c.conn) { codec = r.1 } })

  -- An open connection: an end or an error is answered as a close message.
  unfoldable pub poll_open :
      ℕ
      → (ℕ → ℕ)
      → ServerWsConnection p
      → Outcome ProtError (Option p.Message) × ServerWsConnection p
  unfolding poll_request
  poll_open now randoms c =
      let r = poll_request now randoms c in
      elim r.0 [
        | ok m ↦ elim m [ some v ↦ (ok (some v), r.1) | none ↦ (ok (some p.close_abnormal), r.1) ]
        | pending ↦ (pending, r.1)
        | err e ↦ (ok (some p.close_abnormal), r.1)
        | panic ↦ (panic, r.1)
        | spin ↦ (spin, r.1)
      ]

  -- A connection that closes: the transport is shut down, and what is queued is written after that.
  unfoldable pub poll_closing :
      (ℕ → ℕ) → ServerWsConnection p → Outcome ProtError (Unit {0}) × ServerWsConnection p
  unfolding shutdown poll_write
  poll_closing randoms c = shutdown c >>> λ u d.
      (poll_write randoms d >>> λ v f. (ok tt, record f { state = set_closed p none f.state }))

  -- The loop of `Stream::poll_next`, on fuel.
  unfoldable pub poll_loop :
      ℕ
      → ℕ
      → (ℕ → ℕ)
      → ServerWsConnection p
      → Outcome ProtError (Option p.Message) × ServerWsConnection p
  poll_loop zero now randoms c = (spin, c)
  poll_loop (suc fuel) now randoms c = elim c.state [
    | open_ ↦ poll_open now randoms c
    | closing d ↦ poll_closing randoms c >>> λ u f. poll_loop fuel now randoms f
    | closed d ↦ (ok none, c)
  ]

  -- A connection that closes is closed in the second round, which is the last one.
  unfoldable pub poll_next :
      ℕ
      → (ℕ → ℕ)
      → ServerWsConnection p
      → Outcome ProtError (Option p.Message) × ServerWsConnection p
  unfolding poll_loop
  poll_next now randoms c = poll_loop 2 now randoms c
