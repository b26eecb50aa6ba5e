-- ===== src/Http1/Server.antt =====
-- src/http1/server_connection.rs: an HTTP/1.1 connection of a server with its timeouts.
use dmeng.Prelude.{ℕ, true, Option, none, some}
use dmeng.Prelude.Poll.{Outcome, ok, ◌>>>◌}
use dmeng.Error.{Bytes, ProtError}
use dmeng.Layer.Timeout
use dmeng.Layer.Timeout.{TimeoutLayer, opened}
use dmeng.Body.Process.{Times}
use dmeng.Http1.Platform.{Platform}
use dmeng.Http1.IoBuffer
use dmeng.Http1.IoBuffer.{IoBuffer, Message}
use dmeng.Http1.Write
use dmeng.Http1.Request

pub record ServerH1Connection (p : Platform) : Type 0 where
  pub io : IoBuffer p
  pub timeout : Option TimeoutLayer

module _ (p : Platform) where
  unfoldable pub new : ℕ → p.Io → ServerH1Connection p
  new now io = record { io = IoBuffer.new p now io true; timeout = none }

  unfoldable pub new_by_cache : ℕ → p.Io → Bytes → ServerH1Connection p
  new_by_cache now io binary = record {
    io = IoBuffer.set_read_cache p binary (IoBuffer.new p now io true);
    timeout = none;
  }

  unfoldable pub into_io : ServerH1Connection p → p.Io
  into_io c = c.io.io

  unfoldable pub set_read_timeout : Option ℕ → ServerH1Connection p → ServerH1Connection p
  set_read_timeout d c = record c { timeout = some (Timeout.set_read_timeout d (opened c.timeout)) }

  unfoldable pub set_write_timeout : Option ℕ → ServerH1Connection p → ServerH1Connection p
  set_write_timeout d c = record c {
    timeout = some (Timeout.set_write_timeout d (opened c.timeout));
  }

  unfoldable pub set_timeout : Option ℕ → ServerH1Connection p → ServerH1Connection p
  set_timeout d c = record c { timeout = some (Timeout.set_timeout d (opened c.timeout)) }

  unfoldable pub set_ka_timeout : Option ℕ → ServerH1Connection p → ServerH1Connection p
  set_ka_timeout d c = record c { timeout = some (Timeout.set_ka_timeout d (opened c.timeout)) }

  unfoldable pub set_timeout_layer :
      Option TimeoutLayer → ServerH1Connection p → ServerH1Connection p
  set_timeout_layer layer c = record c { timeout = layer }

  unfoldable pub send_response :
      ℕ → Message p p.ResponseHead → ServerH1Connection p → ServerH1Connection p
  send_response now m c = record c { io = IoBuffer.send_response p now m c.io }

  -- The timeouts are looked at first; `now` is the time.
  unfoldable pub check_timeout :
      ℕ → ServerH1Connection p → Outcome ProtError (Unit {0}) × ServerH1Connection p
  check_timeout now c = elim c.timeout [
    | none ↦ (ok tt, c)
    | some t ↦
        let r =
          Timeout.poll_ready now "server" c.io.ready_time (IoBuffer.is_read_end p c.io)
            (IoBuffer.is_write_end p c.io) (IoBuffer.is_idle p c.io) t in
        (r.0, record c { timeout = some r.1 })
  ]

module _ (p : Platform) (fuel : ℕ) (times : ℕ → Times) where
  unfoldable pub poll_write : ℕ → ServerH1Connection p → Outcome ProtError ℕ × ServerH1Connection p
  poll_write now c = let r = Write.poll_write p fuel times now c.io in (r.0, record c { io = r.1 })

  unfoldable pub poll_request :
      ℕ
      → ServerH1Connection p
      → Outcome ProtError (Option (Message p p.RequestHead)) × ServerH1Connection p
  poll_request now c =
      let r = Request.poll_request p fuel times now c.io in (r.0, record c { io = r.1 })

  -- `Stream::poll_next`.
  unfoldable pub poll_next :
      ℕ
      → ServerH1Connection p
      → Outcome ProtError (Option (Message p p.RequestHead)) × ServerH1Connection p
  unfolding check_timeout poll_request
  poll_next now c = check_timeout p now c >>> λ u d. poll_request now d
