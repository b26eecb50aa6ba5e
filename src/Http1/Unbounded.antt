-- ===== src/Http1/Unbounded.antt =====
-- The length of a request's body in src/http1/io.rs.
use dmeng.Prelude.{
  ℕ, ◌-◌, ◌<◌, ◌≡◌, true, false, some, [], ◌++◌, length, drop, arith, refl, ap, ◌∙◌,
}
use dmeng.Prelude.Poll.{ok, ◌>>>◌}
use dmeng.SendStream
use dmeng.SendStream.{SendStream, take_fixed}
use dmeng.SendStream.Fixed.{take_fixed-idle, take_fixed-short}
use dmeng.Body.State
use dmeng.HeaderHelper.{get_compress_method}
use dmeng.Body.Process.{Times}
use dmeng.Http1.Platform.{Platform}
use dmeng.Http1.IoBuffer.{SendStatus, Message, IoBuffer}
use dmeng.Http1.Read.{left_of, usize_max, build_body}
use dmeng.Http1.Request.{accept, end_read, take_request, header_status}

module _ (p : Platform) (fuel : ℕ) (times : ℕ → Times) where
  process_data-fixed :
      (s : SendStream)
      → s.is_end_headers ≡ true
      → s.is_chunked ≡ false
      → SendStream.process_data p.body.helper s ≡ (ok tt, take_fixed s)
  unfolding SendStream.process_data
  process_data-fixed s headers plain = grind (arith, headers, plain)

  read_data-fixed :
      (s : SendStream)
      → s.is_end_headers ≡ true
      → s.is_chunked ≡ false
      → let t = take_fixed s in
        SendStream.read_data p.body.helper s
        ≡ (ok (length t.real_read_buf), t.real_read_buf, record t { real_read_buf = [] })
  unfolding SendStream.read_data
  read_data-fixed s headers plain = grind (arith, process_data-fixed s headers plain)

  -- A body of unbounded length, not chunked, takes what is in the buffer and goes on.
  build_body-unbounded :
      (status : SendStatus) (s : SendStream)
      → status.left_read_body_len ≡ usize_max
      → status.is_chunked ≡ false
      → s.is_end_headers ≡ true
      → length s.read_buf < usize_max
      → let ends = p.body.Channel in
        let taken = record s {
          is_chunked = false;
          is_end = false;
          left_read_body_len = usize_max - length s.read_buf;
          real_read_buf = [];
          read_buf = [];
        } in
        build_body p status s ≡ (
          ok (
            State.new p.body (p.channel 30).1 (s.real_read_buf ++ s.read_buf) false,
            some (p.channel 30).0,
          ),
          taken,
        )
  unfolding build_body SendStream.process_data SendStream.read_data SendStream.set_chunked
      SendStream.set_left_body
  build_body-unbounded status s left plain headers short =
      let s1 = record s { is_chunked = false; is_end = false; left_read_body_len = usize_max } in
      let t = record s1 {
        left_read_body_len = usize_max - length s.read_buf;
        real_read_buf = s.real_read_buf ++ s.read_buf;
        read_buf = [];
      } in
      let first =
        process_data-fixed s1 headers refl ∙ ap (λ x. (ok tt, x)) (take_fixed-short s1 short) in
      let idle = take_fixed-idle t (omega arith) in
      let second =
        read_data-fixed t headers refl
        ∙ ap (λ x. (ok (length x.real_read_buf), x.real_read_buf, record x { real_read_buf = [] }))
            idle in
      grind (arith, left, plain, first, second)

  header_status-zero_length :
      (head : p.RequestHead) (s : SendStatus)
      → p.is_nobody head ≡ false
      → p.request_body_len head ≡ some 0
      → p.headers.is_chunked (p.request_headers head) ≡ false
      → s.is_chunked ≡ false
      → let t = header_status p fuel times head s in
        (t.left_read_body_len ≡ usize_max) × (t.is_chunked ≡ false)
  unfolding header_status left_of
  header_status-zero_length head s may_have_body no_length plain before =
      (rw (no_length, may_have_body), rw (no_length, may_have_body, plain) before)

  -- A request whose method may have a body and whose Content-Length is 0, not chunked: it is handed out
  -- with a body that is not at its end and that has taken every byte after the header, whatever those
  -- bytes are, and the connection waits for as many bytes of this body as 2^64 - 1 has more than these.
  pub take_request-zero_length :
      (size : ℕ) (head : p.RequestHead) (b : IoBuffer p)
      → p.is_nobody head ≡ false
      → p.request_body_len head ≡ some 0
      → p.headers.is_chunked (p.request_headers head) ≡ false
      → b.inner.req_status.is_chunked ≡ false
      → length (drop size b.send_stream.read_buf) < usize_max
      → (m : Message p p.RequestHead) × (c : IoBuffer p) × (take_request p fuel times size head b
          ≡ (ok (some m), c))
        × (m.body.is_end ≡ false)
        × (m.body.origin_buf
            ≡ some (b.send_stream.real_read_buf ++ drop size b.send_stream.read_buf))
        × (c.send_stream.read_buf ≡ [])
        × (c.send_stream.left_read_body_len ≡ usize_max - length (drop size b.send_stream.read_buf))
        × (c.send_stream.is_end ≡ false)
        × (c.inner.req_status.is_read_header_end ≡ true)
  unfolding take_request State.new State.set_origin_compress_method SendStream.set_new_body
      header_status end_read accept
  take_request-zero_length size head b may_have_body no_length plain before short =
      let status = header_status p fuel times head b.inner.req_status in
      let s = record (SendStream.set_new_body b.send_stream) {
        read_buf = drop size b.send_stream.read_buf;
      } in
      let (left, not_chunked) =
        header_status-zero_length head b.inner.req_status may_have_body no_length plain before in
      let made = build_body-unbounded status s left not_chunked refl short in
      let b' = record b {
        inner = record (b.inner) { req_status = status; is_keep_alive = p.is_keep_alive head };
      } in
      let method = get_compress_method p.headers (p.request_headers head) in
      let recv =
        State.new p.body (p.channel 30).1
          (b.send_stream.real_read_buf ++ drop size b.send_stream.read_buf) false in
      (
        record { head = head; body = record recv { origin_compress_method = method } },
        _,
        ap (λ r. (r.0, record b' { send_stream = r.1 }) >>> accept p fuel times head) made,
        refl,
        refl,
        refl,
        refl,
        refl,
        refl,
      )
