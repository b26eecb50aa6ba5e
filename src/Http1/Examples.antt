-- ===== src/Http1/Examples.antt =====
-- Runs of src/http1 on a transport that is the list of what its reads give. A request is one byte.
use dmeng.Prelude.{
  ℕ, ◌-◌, ◌≡◌, Bool, true, false, none, some, List, [], ◌∷◌, ◌++◌, length, refl, ◌==◌, arith,
}
use dmeng.Prelude.Poll.{ok}
use dmeng.Error.{Bytes}
use dmeng.Transport.{Polled, wait, done, good}
use dmeng.HeaderHelper.{Headers}
use dmeng.SendStream
use dmeng.Body.Examples.{local, clock, body}
use dmeng.Http1.Platform.{Platform, Parsed, parsed, partial}
use dmeng.Http1.IoBuffer
use dmeng.Http1.IoBuffer.{Message, is_active_close}
use dmeng.Http1.Write.{poll_write}
use dmeng.Http1.Read.{usize_max}
use dmeng.Http1.Request.{poll_request, take_request}
use dmeng.Http1.Closing.{poll_write-is_active_close, poll_request-end_loses}
use dmeng.Http1.Unbounded.{take_request-zero_length}

abbrev pub next_read : List Bytes → ℕ → Polled (List Bytes) Bytes
next_read [] n = wait []
next_read (b ∷ bs) n = done b bs

abbrev pub parse_byte : Bytes → Parsed ℕ
parse_byte [] = partial
parse_byte (b ∷ bs) = parsed 1 false b

-- A header map is the method that it names, and whether it says that the body is chunked.
abbrev pub named : Headers
named = record {
  HeaderMap = ℕ × Bool;
  Value = ℕ;
  get_option_value = λ name h. some h.0;
  contains = λ word n. n == 1;
  remove = λ name h. h;
  insert = λ name value h. (h.0, true);
  insert_content_length = λ n h. h;
  is_chunked = λ h. h.1;
  get_body_len = λ h. some 0;
}

abbrev wire : Platform
wire = record {
  body = local;
  Io = List Bytes;
  poll_write = λ io b. done (length b) io;
  poll_read = next_read;
  room = 64;
  RequestHead = ℕ;
  ResponseHead = ℕ;
  encode_request_header = λ h. good (h ∷ []);
  encode_response_header = λ h. good (h ∷ []);
  parse_request = parse_byte;
  parse_response = parse_byte;
  headers = named;
  request_headers = λ h. (0, false);
  response_headers = λ h. (0, false);
  set_response_headers = λ m h. h;
  is_keep_alive = λ h. false;
  request_body_len = λ h. some 0;
  response_body_len = λ h. some 0;
  is_nobody = λ h. false;
  is_success = λ h. true;
  status = λ h. 200;
  http2_magic = 80 ∷ 82 ∷ [];
  Sender = List (Bool × Bytes);
  try_reserve = λ s. true;
  send = λ m s. s ++ (m ∷ []);
  channel = λ n. ([], []);
}

abbrev server : IoBuffer.IoBuffer wire
server = IoBuffer.new wire 0 ((7 ∷ []) ∷ [] ∷ []) true

-- A response with an empty body stands to be sent.
abbrev answering : IoBuffer.IoBuffer wire
answering = IoBuffer.send_response wire 0 (record { head = 3; body = body }) server

poll_write-is_active_close_example :
    let c = (poll_write wire 5 clock 1 answering).1 in
    (is_active_close wire c.inner ≡ false) × (c.inner.req_status.is_send_finish ≡ false)
unfolding IoBuffer.send_response IoBuffer.new IoBuffer.clear
poll_write-is_active_close_example = poll_write-is_active_close wire 5 clock 1 answering refl

abbrev read_once : IoBuffer.IoBuffer wire
read_once = record server {
  io = [] ∷ [];
  send_stream = record (server.send_stream) { read_buf = 7 ∷ [] };
}

abbrev read_twice : IoBuffer.IoBuffer wire
read_twice = record read_once { io = [] }

poll_request-end_loses_example : poll_request wire 5 clock 1 server ≡ (ok none, read_twice)
unfolding poll_write IoBuffer.new IoBuffer.default dmeng.Http1.Read.poll_read
    SendStream.process_data SendStream.put_slice SendStream.empty
poll_request-end_loses_example =
    poll_request-end_loses wire 5 clock 1 3 0 server read_once read_twice refl refl refl refl refl

-- Two requests in the buffer: the second is taken for the body of the first.
abbrev two : IoBuffer.IoBuffer wire
two = record server { send_stream = record (server.send_stream) { read_buf = 7 ∷ 8 ∷ [] } }

take_request-zero_length_example :
    (m : Message wire ℕ) × (c : IoBuffer.IoBuffer wire) × (take_request wire 5 clock 1 7 two
      ≡ (ok (some m), c))
    × (m.body.is_end ≡ false)
    × (m.body.origin_buf ≡ some (two.send_stream.real_read_buf ++ (8 ∷ [])))
    × (c.send_stream.read_buf ≡ [])
    × (c.send_stream.left_read_body_len ≡ usize_max - 1)
    × (c.send_stream.is_end ≡ false)
    × (c.inner.req_status.is_read_header_end ≡ true)
unfolding IoBuffer.new IoBuffer.default
take_request-zero_length_example =
    take_request-zero_length wire 5 clock 1 7 two refl refl refl refl (omega arith)
