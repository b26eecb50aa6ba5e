-- ===== src/HeaderHelper/Framing.antt =====
-- The framing that src/header_helper.rs announces, and the one that the body is sent in.
use dmeng.Prelude.{ℕ, ◌≡◌, ◌≢◌, false, some, arith}
use dmeng.Prelude.Poll.{ok}
use dmeng.Body.Platform
use dmeng.Body.State.{Body, add_compress_method, set_chunked}
use dmeng.Body.Process.{Times}
use dmeng.HeaderHelper.{Headers, get_compress_method, process_headers, http1}

-- A server's HTTP/1 message that names a compression method other than the one its body came in, with
-- no length and no chunked coding set, and a body that is still open: it is announced as chunked, and its
-- body is not sent in chunks, but compressed as it is.
process_headers-unframed :
    (w : Headers) (p : Platform.Platform) (fuel : ℕ) (times : ℕ → Times) (headers : w.HeaderMap)
    (b : Body p)
    → get_compress_method w headers ≢ 0
    → b.origin_compress_method ≢ get_compress_method w headers
    → w.is_chunked headers ≡ false
    → w.get_body_len headers ≡ some 0
    → b.is_end ≡ false
    → let (o, h, b') = process_headers w p fuel times http1 false headers b in
      (o ≡ ok tt)
      × (h ≡ w.insert "transfer-encoding" "chunked" headers)
      × (b'.is_chunked ≡ false)
      × (b'.now_compress_method ≡ get_compress_method w headers)
unfolding process_headers add_compress_method set_chunked
process_headers-unframed w p fuel times headers b compressed other plain no_len still_open =
    grind (arith, plain, no_len, still_open)
