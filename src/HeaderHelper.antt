-- ===== src/HeaderHelper.antt =====
-- src/header_helper.rs: the headers of a message and its body are brought together.
pub mod Framing
use Prim.Native.String.{String}
use dmeng.Prelude.{ℕ, Bool, true, false, not, ◌&&◌, Option, none, some, ◌==◌, if◌then◌else◌}
use dmeng.Prelude.Poll.{Outcome, pending, ok, err, panic, spin}
use dmeng.Error.{Bytes, ProtError, web_error}
use dmeng.Body.Platform
use dmeng.Body.State.{
  Body, set_origin_compress_method, set_chunked, add_compress_method, body_len,
  compress_method_none, compress_method_gzip, compress_method_deflate, compress_method_brotli,
}
use dmeng.Body.Process.{Times, process_data}

-- webparse's `HeaderMap`: a value of a header, what it contains, and the headers that are read and set
-- by their meaning. `get_body_len` is an `isize`, `none` where that is negative.
pub record Headers : Type 1 where
  pub HeaderMap : Type 0
  pub Value : Type 0
  pub get_option_value : String → HeaderMap → Option Value
  pub contains : String → Value → Bool
  pub remove : String → HeaderMap → HeaderMap
  pub insert : String → String → HeaderMap → HeaderMap
  pub insert_content_length : ℕ → HeaderMap → HeaderMap
  pub is_chunked : HeaderMap → Bool
  pub get_body_len : HeaderMap → Option ℕ

pub data Version : Type 0 where
  http1 http2 other : Version

abbrev is_http1 : Version → Bool
is_http1 http1 = true
is_http1 http2 = false
is_http1 other = false

abbrev is_http2 : Version → Bool
is_http2 http1 = false
is_http2 http2 = true
is_http2 other = false

module _ (w : Headers) where
  method_of : w.Value → ℕ
  method_of value =
      if w.contains "gzip" value
      then compress_method_gzip
      else if w.contains "deflate" value
      then compress_method_deflate
      else if w.contains "br" value
      then compress_method_brotli
      else compress_method_none

  unfoldable pub get_compress_method : w.HeaderMap → ℕ
  unfolding method_of
  get_compress_method headers = elim (w.get_option_value "content-encoding" headers) [
    | some value ↦ method_of value
    | none ↦ compress_method_none
  ]

  abbrev is_zero : Option ℕ → Bool
  is_zero none = false
  is_zero (some n) = n == 0

  -- HTTP/2 has no headers of the connection.
  strip : Version → w.HeaderMap → w.HeaderMap
  strip version headers =
      if is_http2 version
      then w.remove "keep-alive" (w.remove "connection" (w.remove "transfer-encoding" headers))
      else headers

module _ (w : Headers) (p : Platform.Platform) (fuel : ℕ) (times : ℕ → Times) where
  -- The body is encoded as far as it is there; its length is put in where that is asked for.
  encode_now : Bool → w.HeaderMap → Body p → Outcome ProtError (Unit {0}) × w.HeaderMap × Body p
  encode_now with_length headers b =
      let r = process_data p fuel times false b in
      let h = if with_length then w.insert_content_length (body_len p r.1) headers else headers in
      elim r.0 [
        | ok n ↦ (ok tt, h, r.1)
        | pending ↦ (ok tt, h, r.1)
        | err e ↦ (err (web_error e), headers, r.1)
        | panic ↦ (panic, headers, r.1)
        | spin ↦ (spin, headers, r.1)
      ]

  -- A client keeps the method that the body came in, a server sets the one that it goes out in.
  set_method : ℕ → Bool → Bool → Body p → ℕ × Body p
  set_method compress is_client is_chunked b =
      if is_client
      then set_origin_compress_method p compress b
      else add_compress_method p compress (set_chunked p is_chunked b)

  unfoldable pub process_headers :
      Version → Bool → w.HeaderMap → Body p → Outcome ProtError (Unit {0}) × w.HeaderMap × Body p
  unfolding strip encode_now set_method
  process_headers version is_client headers b =
      let h = strip w version headers in
      let is_chunked = w.is_chunked h in
      let compress = set_method (get_compress_method w headers) is_client is_chunked b in
      let b' = compress.1 in
      let no_len = is_zero w (w.get_body_len h) in
      if compress.0 == compress_method_none
      then (if not is_chunked && (no_len && b'.is_end)
          then encode_now true h b'
          else (ok tt, h, b'))
      else if not no_len
      then (ok tt, h, b')
      else if b'.is_end
      then encode_now (not is_chunked) h b'
      else if not is_chunked && is_http1 version
      then (ok tt, w.insert "transfer-encoding" "chunked" h, b')
      else (ok tt, h, b')
