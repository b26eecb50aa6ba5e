-- ===== src/Http1/Response.antt =====
-- `poll_response` of src/http1/io.rs: a client's side, from the bytes read to the next response.
use dmeng.Prelude.{ℕ, Bool, true, false, not, ◌&&◌, Option, none, some, drop, ◌==◌, if◌then◌else◌}
use dmeng.Prelude.Poll.{Outcome, pending, ok, err, panic, spin, ◌>>>◌}
use dmeng.Error.{ProtError, web_error}
use dmeng.SendStream
use dmeng.HeaderHelper.{process_headers, http1}
use dmeng.Body.State
use dmeng.Body.Process.{Times}
use dmeng.Http1.Platform.{Platform, parsed, partial, failed}
use dmeng.Http1.IoBuffer.{SendStatus, Message, IoBuffer, clear_read}
use dmeng.Http1.Write.{poll_write}
use dmeng.Http1.Read.{left_of, is_zero, poll_read_all, do_deal_body, build_body}

module _ (p : Platform) (fuel : ℕ) (times : ℕ → Times) where
  abbrev pub Answer : Type 0
  Answer = Outcome ProtError (Option (Message p p.ResponseHead)) × IoBuffer p

  end_read : Bool → IoBuffer p → IoBuffer p
  end_read ended b =
      if ended
      then record b { inner = record (b.inner) { res_status = clear_read b.inner.res_status } }
      else b

  unfoldable pub header_status : p.ResponseHead → SendStatus → SendStatus
  header_status head s =
      let len = p.response_body_len head in
      let unbounded = p.is_success head && is_zero len in
      record s {
        is_send_body = false;
        is_send_finish = false;
        is_read_header_end = true;
        left_read_body_len = left_of len (p.is_success head);
        is_chunked =
            if unbounded && p.headers.is_chunked (p.response_headers head)
            then true
            else s.is_chunked;
      }

  -- A whole header of `size` bytes. A switch of protocols has no body.
  take_response : ℕ → p.ResponseHead → IoBuffer p → Answer
  unfolding header_status end_read
  take_response size head b =
      let s = SendStream.set_new_body b.send_stream in
      let status = header_status head b.inner.res_status in
      let b' = record b {
        send_stream = record s { read_buf = drop size s.read_buf };
        inner = record (b.inner) { res_status = status };
      } in
      let unbounded = p.is_success head && is_zero (p.response_body_len head) in
      if not unbounded && (p.status head == 101)
      then (ok (some (record { head = head; body = State.empty p.body })), b')
      else let r = build_body p status b'.send_stream in
        (r.0, record b' { send_stream = r.1 }) >>> λ made d.
        let h =
          process_headers p.headers p.body fuel times http1 true (p.response_headers head) made.0 in
        (h.0, d) >>> λ u e.
        let f = end_read h.2.is_end e in
        (
          ok (some (record { head = p.set_response_headers h.1 head; body = h.2 })),
          record f { inner = record (f.inner) { read_sender = made.1 } },
        )

  -- After the end of the transport's input there is nothing to wait for.
  not_yet : IoBuffer p → Answer
  not_yet b = (if b.inner.is_delay_close then ok none else pending, b)

  parse_response : IoBuffer p → Answer
  unfolding take_response not_yet
  parse_response b = elim (p.parse_response b.send_stream.read_buf) [
    | partial ↦ not_yet b
    | failed e ↦ (err (web_error e), b)
    | parsed size is_partial head ↦ if is_partial then not_yet b else take_response size head b
  ]

  after_read : IoBuffer p → Answer
  unfolding parse_response end_read
  after_read b =
      if not b.inner.res_status.is_read_header_end
      then parse_response b
      else do_deal_body p fuel false b >>> λ closing c.
          (if closing then ok none else pending, end_read c.inner.res_status.is_read_finish c)

  read_on : IoBuffer p → Answer
  unfolding after_read
  read_on b =
      if b.inner.is_delay_close
      then (ok none, b)
      else poll_read_all p fuel b >>> λ n c.
          after_read
            (if n == 0 then record c { inner = record (c.inner) { is_delay_close = true } } else c)

  unfoldable pub poll_response : ℕ → IoBuffer p → Answer
  unfolding read_on
  poll_response now b =
      let w = poll_write p fuel times now b in
      elim w.0 [
        | ok n ↦ read_on w.1
        | pending ↦ read_on w.1
        | err e ↦ (err e, w.1)
        | panic ↦ (panic, w.1)
        | spin ↦ (spin, w.1)
      ]
