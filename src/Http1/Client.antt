-- ===== src/Http1/Client.antt =====
-- src/http1/client_connection.rs: an HTTP/1.1 connection of a client with its timeouts.
use dmeng.Prelude.{ℕ, false, Option, none, some}
use dmeng.Prelude.Poll.{Outcome, ok, ◌>>>◌}
use dmeng.Error.{ProtError}
use dmeng.Layer.Timeout
use dmeng.Layer.Timeout.{TimeoutLayer, opened}
use dmeng.Body.Process.{Times}
use dmeng.Http1.Platform.{Platform}
use dmeng.Http1.IoBuffer
use dmeng.Http1.IoBuffer.{IoBuffer, Message}
use dmeng.Http1.Write
use dmeng.Http1.Response

pub record ClientH1Connection (p : Platform) : Type 0 where
  pub io : IoBuffer p
  pub timeout : Option TimeoutLayer

module _ (p : Platform) where
  unfoldable pub new : ℕ → p.Io → ClientH1Connection p
  new now io = record { io = IoBuffer.new p now io false; timeout = none }

  unfoldable pub into_io : ClientH1Connection p → p.Io
  into_io c = c.io.io

  unfoldable pub set_read_timeout : Option ℕ → ClientH1Connection p → ClientH1Connection p
  set_read_timeout d c = record c { timeout = some (Timeout.set_read_timeout d (opened c.timeout)) }

  unfoldable pub set_write_timeout : Option ℕ → ClientH1Connection p → ClientH1Connection p
  set_write_timeout d c = record c {
    timeout = some (Timeout.set_write_timeout d (opened c.timeout));
  }

  unfoldable pub set_timeout : Option ℕ → ClientH1Connection p → ClientH1Connection p
  set_timeout d c = record c { timeout = some (Timeout.set_timeout d (opened c.timeout)) }

  unfoldable pub set_ka_timeout : Option ℕ → ClientH1Connection p → ClientH1Connection p
  set_ka_timeout d c = record c { timeout = some (Timeout.set_ka_timeout d (opened c.timeout)) }

  unfoldable pub set_timeout_layer :
      Option TimeoutLayer → ClientH1Connection p → ClientH1Connection p
  set_timeout_layer layer c = record c { timeout = layer }

  unfoldable pub send_request :
      ℕ → Message p p.RequestHead → ClientH1Connection p → ClientH1Connection p
  send_request now m c = record c { io = IoBuffer.send_request p now m c.io }

  -- The timeouts are looked at first; `now` is the time.
  unfoldable pub check_timeout :
      ℕ → ClientH1Connection p → Outcome ProtError (Unit {0}) × ClientH1Connection p
  check_timeout now c = elim c.timeout [
    | none ↦ (ok tt, c)
    | some t ↦
        let r =
          Timeout.poll_ready now "client" c.io.ready_time (IoBuffer.is_read_end p c.io)
            (IoBuffer.is_write_end p c.io) (IoBuffer.is_idle p c.io) t in
        (r.0, record c { timeout = some r.1 })
  ]

module _ (p : Platform) (fuel : ℕ) (times : ℕ → Times) where
  unfoldable pub poll_write : ℕ → ClientH1Connection p → Outcome ProtError ℕ × ClientH1Connection p
  poll_write now c = let r = Write.poll_write p fuel times now c.io in (r.0, record c { io = r.1 })

  unfoldable pub poll_response :
      ℕ
      → ClientH1Connection p
      → Outcome ProtError (Option (Message p p.ResponseHead)) × ClientH1Connection p
  poll_response now c =
      let r = Response.poll_response p fuel times now c.io in (r.0, record c { io = r.1 })

  -- `Stream::poll_next`.
  unfoldable pub poll_next :
      ℕ
      → ClientH1Connection p
      → Outcome ProtError (Option (Message p p.ResponseHead)) × ClientH1Connection p
  unfolding check_timeout poll_response
  poll_next now c = check_timeout p now c >>> λ u d. poll_response now d
