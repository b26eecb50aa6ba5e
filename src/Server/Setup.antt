-- ===== src/Server/Setup.antt =====
-- src/server.rs: a server, its constructors and its setters.
use dmeng.Prelude.{ℕ, Option, none, some, List, [], ◌∷◌, ◌++◌}
use dmeng.Prelude.Poll.{Outcome, ok, panic}
use dmeng.Error.{Bytes, ProtError}
use dmeng.Layer.Timeout
use dmeng.Layer.Timeout.{TimeoutLayer, opened}
use dmeng.Http2.InnerStream.{usize_max}
use dmeng.Server.Parts.{
  Parts, Setting, read_timeout, write_timeout, timeout, ka_timeout, timeout_layer,
}

pub record Server (x : Parts) : Type 0 where
  pub http1 : Option x.H1
  pub http2 : Option x.H2
  pub ws : Option x.Ws
  pub middles : List x.Middle
  pub callback_http : Option x.Http
  pub callback_ws : Option x.Callback
  pub addr : Option x.Addr
  pub timeout : Option TimeoutLayer
  pub req_num : ℕ
  pub max_req_num : ℕ

-- `if let Some(h1) = .. else if let Some(h2) = .. else`.
abbrev pub by_connection : {A B C : Type 0} → (A → C) → (B → C) → C → Option A → Option B → C
by_connection f g c (some h) o = f h
by_connection f g c none (some h) = g h
by_connection f g c none none = c

module _ (x : Parts) where
  -- The server around a connection of HTTP/1.1.
  over : x.H1 → Option x.Addr → Server x
  over http1 addr = record {
    http1 = some http1;
    http2 = none;
    ws = none;
    middles = [];
    callback_http = none;
    callback_ws = none;
    addr = addr;
    timeout = none;
    req_num = 0;
    max_req_num = usize_max;
  }

  unfoldable pub new : x.Io → Option x.Addr → Server x
  unfolding over
  new io addr = over (x.h1_new io) addr

  unfoldable pub new_by_cache : x.Io → Option x.Addr → Bytes → Server x
  unfolding over
  new_by_cache io addr binary = over (x.h1_new_by_cache binary io) addr

  -- A server without HTTP/1.1 and HTTP/2, as it is after the move to WebSocket, panics.
  unfoldable pub into_io : Server x → Outcome ProtError x.Io
  into_io s =
      by_connection (λ h. ok (x.h1_into_io h)) (λ h. ok (x.h2_into_io h)) panic s.http1 s.http2

  -- What a setter does to the connection that is there; that of WebSocket is left as it is.
  unfoldable pub set_connection : Setting → Server x → Server x
  set_connection v s =
      by_connection (λ h. record s { http1 = some (x.h1_set v h) })
        (λ h. record s { http2 = some (x.h2_set v h) }) s s.http1 s.http2

  unfoldable pub set_read_timeout : Option ℕ → Server x → Server x
  set_read_timeout d s =
      set_connection (read_timeout d)
        (record s { timeout = some (Timeout.set_read_timeout d (opened s.timeout)) })

  unfoldable pub set_write_timeout : Option ℕ → Server x → Server x
  set_write_timeout d s =
      set_connection (write_timeout d)
        (record s { timeout = some (Timeout.set_write_timeout d (opened s.timeout)) })

  unfoldable pub set_timeout : Option ℕ → Server x → Server x
  set_timeout d s =
      set_connection (timeout d)
        (record s { timeout = some (Timeout.set_timeout d (opened s.timeout)) })

  unfoldable pub set_ka_timeout : Option ℕ → Server x → Server x
  set_ka_timeout d s =
      set_connection (ka_timeout d)
        (record s { timeout = some (Timeout.set_ka_timeout d (opened s.timeout)) })

  unfoldable pub cloned : Option TimeoutLayer → Option TimeoutLayer
  cloned none = none
  cloned (some t) = some (Timeout.clone t)

  -- The connection is given the layer, and the server keeps a clone.
  unfoldable pub set_timeout_layer : Option TimeoutLayer → Server x → Server x
  set_timeout_layer t s = set_connection (timeout_layer t) (record s { timeout = cloned t })

  unfoldable pub middle : x.Middle → Server x → Server x
  middle m s = record s { middles = s.middles ++ m ∷ [] }

  unfoldable pub set_callback_http : x.Http → Server x → Server x
  set_callback_http f s = record s { callback_http = some f }

  unfoldable pub take_callback_http : Server x → Option x.Http × Server x
  take_callback_http s = (s.callback_http, record s { callback_http = none })

  unfoldable pub set_callback_ws : x.Callback → Server x → Server x
  set_callback_ws f s = record s { callback_ws = some f }

  unfoldable pub take_callback_ws : Server x → Option x.Callback × Server x
  take_callback_ws s = (s.callback_ws, record s { callback_ws = none })

  unfoldable pub get_req_num : Server x → ℕ
  get_req_num s = s.req_num

  unfoldable pub set_max_req : ℕ → Server x → Server x
  set_max_req num s = record s { max_req_num = num }

  -- `let _ = poll_fn(|cx| h.poll_write(cx)).await`.
  unfoldable pub flush : Server x → Server x
  flush s =
      by_connection (λ h. record s { http1 = some (x.h1_poll_write h) })
        (λ h. record s { http2 = some (x.h2_poll_write h) }) s s.http1 s.http2

  -- Over HTTP/2 a response without a stream is not sent.
  unfoldable pub send_response :
      x.Response → Option ℕ → Server x → Outcome ProtError (Unit {0}) × Server x
  send_response res stream_id s =
      by_connection (λ h. let a = x.h1_send_response res h in (a.0, record s { http1 = some a.1 }))
        (λ h. elim stream_id [
          | none ↦ (ok tt, s)
          | some id ↦ let a = x.h2_send_response res id h in (a.0, record s { http2 = some a.1 })
        ])
        (ok tt, s) s.http1 s.http2
