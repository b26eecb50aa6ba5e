-- ===== src/Http1/IoBuffer.antt =====
-- src/http1/io.rs: the state of an HTTP/1.1 connection, its writing, and its reading from the transport.
-- A message is its head and its body, and an `Instant` a number.
use dmeng.Prelude.{
  ℕ, Bool, true, false, not, ◌&&◌, ◌||◌, Option, none, List, [], ◌∷◌, ◌++◌, if◌then◌else◌,
}
use dmeng.Error.{Bytes}
use dmeng.SendStream
use dmeng.SendStream.{SendStream}
use dmeng.Body.State.{Body}
use dmeng.Http1.Platform.{Platform}

pub record SendStatus : Type 0 where
  pub is_send_body : Bool
  pub is_send_header : Bool
  pub is_send_finish : Bool
  pub is_read_header_end : Bool
  pub is_read_finish : Bool
  pub is_chunked : Bool
  pub left_read_body_len : ℕ

unfoldable pub default : SendStatus
default = record {
  is_send_body = false;
  is_send_header = false;
  is_send_finish = false;
  is_read_header_end = false;
  is_read_finish = false;
  is_chunked = false;
  left_read_body_len = 0;
}

unfoldable pub clear_write : SendStatus → SendStatus
clear_write s = record s { is_send_body = false; is_send_header = false; is_send_finish = false }

unfoldable pub clear_read : SendStatus → SendStatus
clear_read s = record s {
  is_read_finish = false;
  is_read_header_end = false;
  left_read_body_len = 0;
  is_chunked = false;
}

unfoldable pub clear : SendStatus → SendStatus
unfolding clear_write clear_read
clear s = clear_write (clear_read s)

pub record Message (p : Platform) (H : Type 0) : Type 0 where
  pub head : H
  pub body : Body p.body

pub record ConnectionInfo (p : Platform) : Type 0 where
  pub deal_req : ℕ
  pub read_sender : Option p.Sender
  pub res_list : List (Message p p.ResponseHead)
  pub req_list : List (Message p p.RequestHead)
  pub is_keep_alive : Bool
  pub is_delay_close : Bool
  pub is_idle : Bool
  pub req_status : SendStatus
  pub res_status : SendStatus

-- The code tests the status of the request twice.
unfoldable pub is_active_close : (p : Platform) → ConnectionInfo p → Bool
is_active_close p c =
    c.req_status.is_send_finish && c.req_status.is_send_finish && not c.is_keep_alive

pub record IoBuffer (p : Platform) : Type 0 where
  pub io : p.Io
  pub is_server : Bool
  pub send_stream : SendStream
  pub write_buf : Bytes
  pub inner : ConnectionInfo p
  pub ready_time : ℕ

abbrev pub is_empty {ℓ} : {A : Type ℓ} → List A → Bool
is_empty [] = true
is_empty (x ∷ xs) = false

abbrev pub tail {ℓ} : {A : Type ℓ} → List A → List A
tail [] = []
tail (x ∷ xs) = xs

module _ (p : Platform) where
  unfoldable pub new : ℕ → p.Io → Bool → IoBuffer p
  new now io is_server = record {
    io = io;
    is_server = is_server;
    send_stream = SendStream.empty;
    write_buf = [];
    inner = record {
      deal_req = 0;
      read_sender = none;
      res_list = [];
      req_list = [];
      is_keep_alive = false;
      is_delay_close = false;
      is_idle = true;
      req_status = default;
      res_status = default;
    };
    ready_time = now;
  }

  unfoldable pub set_read_cache : Bytes → IoBuffer p → IoBuffer p
  set_read_cache binary b = record b { send_stream = SendStream.put_slice binary b.send_stream }

  unfoldable pub set_now_end : ℕ → IoBuffer p → IoBuffer p
  set_now_end now b = record b {
    inner = record (b.inner) {
      req_status = clear b.inner.req_status;
      res_status = clear b.inner.res_status;
      is_idle = true;
    };
    ready_time = now;
  }

  unfoldable pub check_finish_status : ℕ → IoBuffer p → IoBuffer p
  unfolding set_now_end
  check_finish_status now b =
      if (is_empty b.inner.req_list || b.inner.req_status.is_send_finish)
        && (is_empty b.inner.res_list || b.inner.res_status.is_send_finish)
      then set_now_end now b
      else b

  unfoldable pub is_read_end : IoBuffer p → Bool
  is_read_end b =
      (if b.is_server then b.inner.req_status.is_read_finish else b.inner.res_status.is_read_finish)
      || b.send_stream.is_end

  unfoldable pub is_write_end : IoBuffer p → Bool
  is_write_end b =
      if b.is_server
      then is_empty b.inner.req_list || b.inner.res_status.is_send_finish
      else is_empty b.inner.res_list || b.inner.req_status.is_send_finish

  unfoldable pub is_idle : IoBuffer p → Bool
  is_idle b = b.inner.is_idle

  unfoldable pub into : IoBuffer p → p.Io × Bytes × Bytes
  into b = (b.io, b.send_stream.read_buf, b.write_buf)

  unfoldable pub send_response : ℕ → Message p p.ResponseHead → IoBuffer p → IoBuffer p
  unfolding check_finish_status
  send_response now res b =
      let c = check_finish_status now b in
      record c {
        inner = record (c.inner) { res_list = c.inner.res_list ++ (res ∷ []); is_idle = false };
      }

  unfoldable pub send_request : ℕ → Message p p.RequestHead → IoBuffer p → IoBuffer p
  unfolding check_finish_status
  send_request now req b =
      let c = check_finish_status now b in
      record c {
        inner = record (c.inner) { req_list = c.inner.req_list ++ (req ∷ []); is_idle = false };
      }
