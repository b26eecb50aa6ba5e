-- ===== src/Http1/Write.antt =====
-- `poll_write` of src/http1/io.rs: the first message in line is encoded, and the buffer is written.
use dmeng.Prelude.{ℕ, ◌+◌, Bool, true, false, ◌&&◌, ◌||◌, List, [], ◌∷◌, ◌++◌, drop, if◌then◌else◌}
use dmeng.Prelude.Poll.{Outcome, pending, ok, err, panic, spin, is_value, ◌>>>◌}
use dmeng.Error.{Bytes, ProtError, io_error}
use dmeng.Transport.{Result, good, bad, wait, done, fail}
use dmeng.Body.State.{Body}
use dmeng.Body.Process.{Times, poll_encode_write}
use dmeng.Http1.Platform.{Platform}
use dmeng.Http1.IoBuffer.{
  SendStatus, Message, IoBuffer, clear_write, check_finish_status, is_empty, tail,
}

module _ (p : Platform) (fuel : ℕ) (times : ℕ → Times) where
  -- The header of a message goes to the buffer once; then its status and what is put in.
  unfoldable pub encode_header :
      Result Bytes → SendStatus → Outcome ProtError (Unit {0}) × SendStatus × Bytes
  encode_header r s = if s.is_send_header then (ok tt, s, []) else elim r [
    | good b ↦ (ok tt, record s { is_send_header = true }, b)
    | bad e ↦ (err e, s, [])
  ]

  -- The body is polled until it is at its end, and once at least; the answer of the poll is dropped,
  -- but not a panic.
  unfoldable pub encode_body :
      SendStatus → Body p.body → Outcome ProtError (Unit {0}) × SendStatus × Bytes × Body p.body
  encode_body s b =
      if b.is_end && s.is_send_body
      then (ok tt, s, [], b)
      else let r = poll_encode_write p.body fuel times b in
        let s' = record s { is_send_body = true } in
        elim r.0 [
          | ok n ↦ (ok tt, s', r.1, r.2)
          | err e ↦ (ok tt, s', r.1, r.2)
          | pending ↦ (ok tt, s', r.1, r.2)
          | panic ↦ (panic, s', r.1, r.2)
          | spin ↦ (spin, s', r.1, r.2)
        ]

  -- A message at the front: its status, the bytes for the buffer, and the message afterwards.
  unfoldable pub encode_message :
      {H : Type 0}
      → Result Bytes
      → SendStatus
      → Message p H
      → Outcome ProtError (Unit {0}) × SendStatus × Bytes × Message p H
  unfolding encode_header encode_body
  encode_message header s m =
      let h = encode_header header s in
      let b = encode_body h.1 m.body in
      let m' = record m { body = b.3 } in
      elim h.0 [
        | ok u ↦ (
          b.0,
          record (b.1) { is_send_finish = b.1.is_send_finish || (is_value b.0 && b.3.is_end) },
          h.2 ++ b.2,
          m',
        )
        | err e ↦ (err e, h.1, h.2, m)
        | pending ↦ (pending, h.1, h.2, m)
        | panic ↦ (panic, h.1, h.2, m)
        | spin ↦ (spin, h.1, h.2, m)
      ]

  -- A response that is sent is dropped, and its status is that of the next.
  unfoldable pub finish_response : ℕ → IoBuffer p → IoBuffer p
  finish_response now b =
      if b.inner.res_status.is_send_finish
      then check_finish_status p now (record b {
        inner = record (b.inner) {
          res_list = tail b.inner.res_list;
          res_status = clear_write b.inner.res_status;
        };
      })
      else b

  unfoldable pub finish_request : ℕ → IoBuffer p → IoBuffer p
  finish_request now b =
      if b.inner.req_status.is_send_finish
      then check_finish_status p now (record b {
        inner = record (b.inner) {
          req_list = tail b.inner.req_list;
          req_status = clear_write b.inner.req_status;
        };
      })
      else b

  one : Bool → ℕ
  one true = 1
  one false = 0

  unfoldable pub front_response :
      List (Message p p.ResponseHead) → IoBuffer p → Outcome ProtError (Unit {0}) × IoBuffer p
  unfolding one
  front_response [] b = (ok tt, b)
  front_response (m ∷ ms) b =
      let s = b.inner.res_status in
      let chunked =
        if s.is_send_header
        then s.is_chunked
        else p.headers.is_chunked (p.response_headers m.head) in
      let r =
        encode_message (p.encode_response_header m.head) (record s { is_chunked = chunked }) m in
      (
        r.0,
        record b {
          write_buf = b.write_buf ++ r.2;
          inner = record (b.inner) {
            res_status = r.1;
            res_list = r.3 ∷ ms;
            deal_req = b.inner.deal_req + one r.3.body.is_end;
          };
        },
      )

  unfoldable pub front_request :
      List (Message p p.RequestHead) → IoBuffer p → Outcome ProtError (Unit {0}) × IoBuffer p
  unfolding one
  front_request [] b = (ok tt, b)
  front_request (m ∷ ms) b =
      let r = encode_message (p.encode_request_header m.head) b.inner.req_status m in
      (
        r.0,
        record b {
          write_buf = b.write_buf ++ r.2;
          inner = record (b.inner) {
            req_status = r.1;
            req_list = r.3 ∷ ms;
            deal_req = b.inner.deal_req + one r.3.body.is_end;
          };
        },
      )

  -- One write; what is left over is Pending.
  unfoldable pub write_out : IoBuffer p → Outcome ProtError ℕ × IoBuffer p
  write_out b = if is_empty b.write_buf then (ok 0, b) else elim (p.poll_write b.io b.write_buf) [
    | wait io ↦ (pending, record b { io = io })
    | fail e io ↦ (err (io_error e), record b { io = io })
    | done n io ↦ (
      if is_empty (drop n b.write_buf) then ok n else pending,
      record b { io = io; write_buf = drop n b.write_buf },
    )
  ]

  -- The two halves before the write.
  unfoldable pub encode_messages : ℕ → IoBuffer p → Outcome ProtError (Unit {0}) × IoBuffer p
  unfolding front_response front_request finish_response finish_request
  encode_messages now b = front_response b.inner.res_list b >>> λ u c.
      (let d = finish_response now c in front_request d.inner.req_list d) >>> λ u e.
      (ok tt, finish_request now e)

  unfoldable pub poll_write : ℕ → IoBuffer p → Outcome ProtError ℕ × IoBuffer p
  unfolding encode_messages write_out
  poll_write now b = encode_messages now b >>> λ u c. write_out c
