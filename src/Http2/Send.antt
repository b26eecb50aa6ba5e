-- ===== src/Http2/Send.antt =====
-- src/http2/send_request.rs and send_response.rs: a message on its way out becomes a HEADERS or
-- PUSH_PROMISE frame, once, and then a DATA frame for whatever the body has at each poll.
pub mod Run
use Prim.Native.String.{String}
use text.Mathlib.Text.{◌==◌ as str_eq}
use dmeng.Prelude.{
  ℕ, Bool, true, false, not, ◌||◌, ◌&&◌, Option, none, some, List, [], ◌∷◌, ◌++◌, ◌==◌,
  if◌then◌else◌,
}
use dmeng.Error.{Bytes}
use dmeng.Http2.Frame.{Frame, payload, headers, push_promise, HeaderBlock}
use dmeng.Http2.Platform.{Platform}
use dmeng.Http2.Codec.{is_empty}

-- A request as the encoder reads it: `authority` is `get_connect_url()`.
pub record Request (p : Platform) : Type 0 where
  pub method : String
  pub path : String
  pub scheme : String
  pub authority : Option String
  pub header_map : p.HeaderMap
  pub body : p.Body

pub record Response (p : Platform) : Type 0 where
  pub status : ℕ
  pub header_map : p.HeaderMap
  pub body : p.Body

pub record SendRequest (p : Platform) : Type 0 where
  pub stream_id : ℕ
  pub request : Request p
  pub encode_header : Bool
  pub encode_body : Bool
  pub is_end_stream : Bool

pub record SendResponse (p : Platform) : Type 0 where
  pub stream_id : ℕ
  pub push_id : Option ℕ
  pub response : Response p
  pub encode_header : Bool
  pub encode_body : Bool
  pub is_end_stream : Bool
  pub method : String

module _ (p : Platform) where
  open p use {HeaderMap, header_new, header_insert, header_iter}

  unfoldable pub new_request : ℕ → Request p → Bool → SendRequest p
  new_request stream_id request is_end_stream = record {
    stream_id = stream_id;
    request = request;
    encode_header = false;
    encode_body = false;
    is_end_stream = is_end_stream;
  }

  unfoldable pub new_response : ℕ → Option ℕ → Response p → String → Bool → SendResponse p
  new_response stream_id push_id response method is_end_stream = record {
    stream_id = stream_id;
    push_id = push_id;
    response = response;
    encode_header = false;
    encode_body = false;
    is_end_stream = is_end_stream;
    method = method;
  }

  insert_unless_empty : String → String → HeaderMap → HeaderMap
  insert_unless_empty name value m = if str_eq value "" then m else header_insert name value m

  copy_but_host : List (String × String) → HeaderMap → HeaderMap
  copy_but_host [] m = m
  copy_but_host ((name, value) ∷ r) m =
      copy_but_host r (if str_eq name "Host" then m else header_insert name value m)

  unfoldable pub request_headers : Request p → HeaderMap
  unfolding insert_unless_empty copy_but_host
  request_headers r =
      let authority : String = elim r.authority [ none ↦ "" | some a ↦ a ] in
      let named = header_insert ":path" r.path (header_insert ":method" r.method header_new) in
      copy_but_host (header_iter r.header_map)
        (insert_unless_empty ":authority" authority (insert_unless_empty ":scheme" r.scheme named))

  -- `TryInto::<isize>::try_into(value).unwrap_or(0) == 0`
  is_zero_length : String → Bool
  is_zero_length value = elim (p.parse_isize value) [ none ↦ true | some (sign, n) ↦ n == 0 ]

  copy_headers : List (String × String) → HeaderMap → Bool → HeaderMap × Bool
  unfolding is_zero_length
  copy_headers [] m is_end = (m, is_end)
  copy_headers ((name, value) ∷ r) m is_end =
      copy_headers r (header_insert name value m)
        (is_end || (p.is_content_length name && is_zero_length value))

  unfoldable pub response_headers : Response p → HeaderMap × Bool
  unfolding copy_headers
  response_headers r =
      copy_headers (header_iter r.header_map)
        (header_insert ":status" (p.status_text r.status) header_new) false

  -- The DATA frame of a poll of the body; `none` where the body put out nothing.
  data_frame : ℕ → Bytes → Bool → List (Frame HeaderMap)
  data_frame stream_id binary ended =
      if is_empty binary
      then []
      else record {
        stream_id = stream_id;
        is_end_headers = false;
        is_end_stream = ended;
        kind = payload binary;
      }
        ∷ []

  request_header_frame : SendRequest p → List (Frame HeaderMap)
  unfolding request_headers
  request_header_frame s =
      if s.encode_header
      then []
      else record {
        stream_id = s.stream_id;
        is_end_headers = true;
        is_end_stream = p.is_nobody s.request.method;
        kind = headers (record {
          fields = request_headers s.request;
          status = none;
          method = some s.request.method;
        });
      }
        ∷ []

  -- `SendRequest::encode_frames`: is the stream ended, with the frames.
  unfoldable pub encode_request_frames :
      SendRequest p → Bool × List (Frame HeaderMap) × SendRequest p
  unfolding request_header_frame data_frame
  encode_request_frames s =
      let head = request_header_frame s in
      if not (p.body_is_end s.request.body) || not s.encode_body
      then (let (binary, body) = p.poll_encode_write s.request.body in
          let ended = if is_empty binary then s.is_end_stream else p.body_is_end body in
          (
            ended,
            head ++ data_frame s.stream_id binary ended,
            record s {
              request = record s.request { body = body };
              encode_header = true;
              encode_body = true;
              is_end_stream = ended;
            },
          ))
      else (s.is_end_stream, head, record s { encode_header = true })

  response_header_frame : SendResponse p → List (Frame HeaderMap)
  unfolding response_headers
  response_header_frame s =
      if s.encode_header
      then []
      else let (fields, is_end) = response_headers s.response in
        let block : HeaderBlock HeaderMap = record {
          fields = fields;
          status = some s.response.status;
          method = none;
        } in
        record {
          stream_id = s.stream_id;
          is_end_headers = true;
          is_end_stream = is_end;
          kind = elim s.push_id [ none ↦ headers block | some id ↦ push_promise id block ];
        }
        ∷ []

  -- After the promise the response goes on in the promised stream.
  response_stream : SendResponse p → ℕ
  response_stream s =
      if s.encode_header then s.stream_id else elim s.push_id [ none ↦ s.stream_id | some id ↦ id ]

  unfoldable pub encode_response_frames :
      SendResponse p → Bool × List (Frame HeaderMap) × SendResponse p
  unfolding response_header_frame response_stream data_frame
  encode_response_frames s =
      let head = response_header_frame s in
      let id = response_stream s in
      if not (p.body_is_end s.response.body) || not s.encode_body
      then (let (binary, body) = p.poll_encode_write s.response.body in
          let ended = if is_empty binary then s.is_end_stream else p.body_is_end body in
          (
            ended,
            head ++ data_frame id binary ended,
            record s {
              stream_id = id;
              response = record s.response { body = body };
              encode_header = true;
              encode_body = true;
              is_end_stream = ended;
            },
          ))
      else (s.is_end_stream, head, record s { stream_id = id; encode_header = true })
