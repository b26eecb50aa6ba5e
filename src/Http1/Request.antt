-- ===== src/Http1/Request.antt =====
-- `poll_request` of src/http1/io.rs: a server's side, from the bytes read to the next request.
use dmeng.Prelude.{
  ℕ, Bool, true, false, not, ◌&&◌, Option, none, some, [], length, take, drop, leb, ◌==◌,
  if◌then◌else◌,
}
use dmeng.Prelude.Poll.{Outcome, pending, ok, err, panic, spin, ◌>>>◌}
use dmeng.Error.{ProtError, web_error, server_upgrade_http2}
use dmeng.SendStream
use dmeng.HeaderHelper.{get_compress_method}
use dmeng.Body.State.{Body, set_origin_compress_method}
use dmeng.Body.Process.{Times}
use dmeng.Http2.State.Handshake.{matches}
use dmeng.Http1.Platform.{Platform, parsed, partial, failed}
use dmeng.Http1.IoBuffer.{SendStatus, Message, IoBuffer, is_active_close, is_empty, clear_read}
use dmeng.Http1.Write.{poll_write}
use dmeng.Http1.Read.{left_of, is_zero, poll_read_all, do_deal_body, build_body}

module _ (p : Platform) (fuel : ℕ) (times : ℕ → Times) where
  abbrev pub Answer : Type 0
  Answer = Outcome ProtError (Option (Message p p.RequestHead)) × IoBuffer p

  set_req_status : SendStatus → IoBuffer p → IoBuffer p
  set_req_status s b = record b { inner = record (b.inner) { req_status = s } }

  -- A body that is at its end leaves its message's header behind.
  unfoldable pub end_read : Bool → IoBuffer p → IoBuffer p
  unfolding set_req_status
  end_read ended b =
      if ended
      then record (set_req_status (clear_read b.inner.req_status) b) {
        send_stream = SendStream.set_end_headers false b.send_stream;
      }
      else b

  -- The status of a request whose header was just parsed.
  unfoldable pub header_status : p.RequestHead → SendStatus → SendStatus
  header_status head s =
      let len = p.request_body_len head in
      let may_have_body = not (p.is_nobody head) && is_zero len in
      record s {
        is_send_body = false;
        is_send_finish = false;
        is_read_header_end = true;
        left_read_body_len = left_of len (not (p.is_nobody head));
        is_chunked =
            if may_have_body && p.headers.is_chunked (p.request_headers head)
            then true
            else s.is_chunked;
      }

  -- The request that is handed out, once its body is built.
  unfoldable pub accept : p.RequestHead → Body p.body × Option p.Sender → IoBuffer p → Answer
  unfolding end_read
  accept head made b =
      let method = get_compress_method p.headers (p.request_headers head) in
      let recv = (set_origin_compress_method p.body method made.0).1 in
      let c = end_read recv.is_end b in
      (
        ok (some (record { head = head; body = recv })),
        record c { inner = record (c.inner) { read_sender = made.1 } },
      )

  -- A whole header of `size` bytes.
  unfoldable pub take_request : ℕ → p.RequestHead → IoBuffer p → Answer
  unfolding header_status accept
  take_request size head b =
      let s = SendStream.set_new_body b.send_stream in
      let status = header_status head b.inner.req_status in
      let b' = record b {
        send_stream = record s { read_buf = drop size s.read_buf };
        inner = record (b.inner) { req_status = status; is_keep_alive = p.is_keep_alive head };
      } in
      let r = build_body p status b'.send_stream in
      (r.0, record b' { send_stream = r.1 }) >>> accept head

  -- A buffer that is no request may be the preface of HTTP/2.
  unfoldable pub parse_request : IoBuffer p → Answer
  unfolding take_request
  parse_request b =
      let buf = b.send_stream.read_buf in
      let n = length p.http2_magic in
      elim (p.parse_request buf) [
        | partial ↦ (pending, b)
        | failed e ↦ (
          if leb n (length buf) && matches (take n buf) p.http2_magic
              then err (server_upgrade_http2 [] none)
              else err (web_error e),
          b,
        )
        | parsed size is_partial head ↦
            if is_partial then (pending, b) else take_request size head b
      ]

  -- The bytes of the body that is being read are passed on first.
  unfoldable pub after_read : IoBuffer p → Answer
  unfolding parse_request end_read
  after_read b =
      if not b.inner.req_status.is_read_header_end
      then parse_request b
      else do_deal_body p fuel true b >>> λ closing c.
          let d = end_read c.inner.req_status.is_read_finish c in
          if is_empty d.send_stream.read_buf && not d.inner.req_status.is_read_header_end
          then (pending, d)
          else parse_request d

  unfoldable pub read_on : IoBuffer p → Answer
  unfolding after_read
  read_on b = poll_read_all p fuel b >>> λ n c. (if n == 0 then (ok none, c) else after_read c)

  unfoldable pub poll_request : ℕ → IoBuffer p → Answer
  unfolding read_on
  poll_request now b =
      let w = poll_write p fuel times now b in
      elim w.0 [
        | ok n ↦
            if n == 0 && (is_active_close p w.1.inner && is_empty w.1.write_buf)
            then (ok none, w.1)
            else read_on w.1
        | pending ↦ read_on w.1
        | err e ↦ (err e, w.1)
        | panic ↦ (panic, w.1)
        | spin ↦ (spin, w.1)
      ]
