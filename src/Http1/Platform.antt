-- ===== src/Http1/Platform.antt =====
-- What src/http1 takes from other libraries: the transport, webparse's messages, and the sending half
-- of the channel into a body. The rest is that of src/body.rs.
use dmeng.Prelude.{ℕ, Bool, Option}
use dmeng.Error.{Bytes}
use dmeng.Transport.{Polled, Result}
use dmeng.HeaderHelper.{Headers}
use dmeng.Body.Platform as BodyPlatform

-- What a parser answers of a buffer: the bytes used and the message, and whether that is partial.
pub data Parsed (H : Type 0) : Type 0 where
  parsed : ℕ → Bool → H → Parsed H
  partial : Parsed H
  failed : ℕ → Parsed H

pub record Platform : Type 1 where
  pub body : BodyPlatform.Platform
  pub Io : Type 0
  pub poll_write : Io → Bytes → Polled Io ℕ
  pub poll_read : Io → ℕ → Polled Io Bytes
  -- The room that a reserved buffer offers.
  pub room : ℕ
  pub RequestHead : Type 0
  pub ResponseHead : Type 0
  pub encode_request_header : RequestHead → Result Bytes
  pub encode_response_header : ResponseHead → Result Bytes
  pub parse_request : Bytes → Parsed RequestHead
  pub parse_response : Bytes → Parsed ResponseHead
  pub headers : Headers
  pub request_headers : RequestHead → headers.HeaderMap
  pub response_headers : ResponseHead → headers.HeaderMap
  pub set_response_headers : headers.HeaderMap → ResponseHead → ResponseHead
  pub is_keep_alive : RequestHead → Bool
  -- `get_body_len`, an `isize`: negative, or its value.
  pub request_body_len : RequestHead → Option ℕ
  pub response_body_len : ResponseHead → Option ℕ
  pub is_nobody : RequestHead → Bool
  pub is_success : ResponseHead → Bool
  pub status : ResponseHead → ℕ
  pub http2_magic : Bytes
  pub Sender : Type 0
  pub try_reserve : Sender → Bool
  pub send : Bool × Bytes → Sender → Sender
  pub channel : ℕ → Sender × body.Channel
