-- ===== src/Http2/Codec.antt =====
-- src/http2/codec/mod.rs, framed_write.rs and framed_read.rs: frames over a transport. The nested
-- `Codec`, `FramedRead` and `FramedWrite` are one record; a `BinaryMut` is the bytes that remain, with
-- its cursor. `partial` is never set by the code and is left out.
pub mod Stream
use dmeng.Prelude.{
  ℕ, ◌+◌, ◌*◌, Bool, true, false, not, ◌&&◌, Option, none, some, List, [], ◌∷◌, ◌++◌, length, take,
  drop, min, ltb, ◌==◌, if◌then◌else◌,
}
use dmeng.Prelude.Poll.{Outcome, pending, ok, err, panic, spin, ◌>>=◌}
use dmeng.Error.{Bytes, ProtError, io_error}
use dmeng.Http2.Frame.{Frame}
use dmeng.Http2.Platform.{Platform, Polled, wait, done, fail, Result, good, bad}

abbrev pub default_max_frame_size : ℕ
default_max_frame_size = 16384

abbrev pub default_settings_header_table_size : ℕ
default_settings_header_table_size = 4096

pub record Codec (p : Platform) : Type 0 where
  pub io : p.Io
  -- FramedRead
  pub read_buf : Bytes
  pub decoder : p.Decoder
  pub max_header_list_size : ℕ
  -- FramedWrite
  pub binary : Bytes
  pub cursor : ℕ
  pub max_frame_size : ℕ
  -- Codec
  pub header_index : p.HeaderIndex
  pub header_table_size : ℕ
  pub max_send_frame_size : ℕ

abbrev pub is_empty : Bytes → Bool
is_empty [] = true
is_empty (b ∷ bs) = false

module _ (p : Platform) where
  open p use {Io, poll_write, poll_read, poll_shutdown, HeaderMap, encode}

  unfoldable pub new : Io → Codec p
  new io = record {
    io = io;
    read_buf = [];
    decoder = p.decoder_new;
    max_header_list_size = default_settings_header_table_size;
    binary = [];
    cursor = 0;
    max_frame_size = default_max_frame_size;
    header_index = p.index_new;
    header_table_size = default_settings_header_table_size;
    max_send_frame_size = default_max_frame_size;
  }

  unfoldable pub has_capacity : Codec p → Bool
  has_capacity c = ltb (length c.binary) c.max_frame_size

  -- After a write of `n` bytes: a buffer that is used up and has run far is replaced by a new one.
  advance : Io → ℕ → Codec p → Codec p
  advance io n c =
      let rest = drop n c.binary in
      let run = c.cursor + n in
      record c {
        io = io;
        binary = rest;
        cursor = if is_empty rest && ltb (10 * c.max_frame_size) run then 0 else run;
      }

  -- `FramedWrite::flush`: one write.
  unfoldable pub flush : Codec p → Outcome ProtError (Unit {0}) × Codec p
  unfolding advance
  flush c = if is_empty c.binary then (ok tt, c) else elim (poll_write c.io c.binary) [
    | wait io ↦ (pending, record c { io = io })
    | done n io ↦ (ok tt, advance io n c)
    | fail e io ↦ (err (io_error e), record c { io = io })
  ]

  after_flush : Outcome ProtError (Unit {0}) × Codec p → Outcome ProtError (Unit {0}) × Codec p
  unfolding has_capacity
  after_flush (ok u, c) = if has_capacity c then (ok tt, c) else (pending, c)
  after_flush (pending, c) = (pending, c)
  after_flush (err e, c) = (err e, c)
  after_flush (panic, c) = (panic, c)
  after_flush (spin, c) = (spin, c)

  unfoldable pub poll_ready : Codec p → Outcome ProtError (Unit {0}) × Codec p
  unfolding has_capacity flush after_flush
  poll_ready c = if has_capacity c then (ok tt, c) else after_flush (flush c)

  then_shutdown : Outcome ProtError (Unit {0}) × Codec p → Outcome ProtError (Unit {0}) × Codec p
  then_shutdown (ok u, c) = elim (poll_shutdown c.io) [
    | wait io ↦ (pending, record c { io = io })
    | done v io ↦ (ok tt, record c { io = io })
    | fail e io ↦ (err (io_error e), record c { io = io })
  ]
  then_shutdown (pending, c) = (pending, c)
  then_shutdown (err e, c) = (err e, c)
  then_shutdown (panic, c) = (panic, c)
  then_shutdown (spin, c) = (spin, c)

  unfoldable pub shutdown : Codec p → Outcome ProtError (Unit {0}) × Codec p
  unfolding flush then_shutdown
  shutdown c = then_shutdown (flush c)

  unfoldable pub set_cache_buf : Bytes → Bytes → Codec p → Codec p
  set_cache_buf read_buf write_buf c = record c {
    read_buf = c.read_buf ++ read_buf;
    binary = c.binary ++ write_buf;
  }

  unfoldable pub is_write_end : Codec p → Bool
  is_write_end c = is_empty c.binary

  unfoldable pub into_io_with_cache : Codec p → Io × Bytes × Bytes
  into_io_with_cache c = (c.io, c.read_buf, c.binary)

  put_frame : Codec p → Result Bytes × p.HeaderIndex → Outcome ProtError ℕ × Codec p
  put_frame c (good b, index) =
      (ok (length b), record c { header_index = index; binary = c.binary ++ b })
  put_frame c (bad e, index) = (err e, record c { header_index = index })

  unfoldable pub send_frame : Frame HeaderMap → Codec p → Outcome ProtError ℕ × Codec p
  unfolding put_frame
  send_frame f c = put_frame c (encode c.header_index c.max_send_frame_size f)

  unfoldable pub set_send_header_table_size : ℕ → Codec p → Codec p
  set_send_header_table_size size c = record c {
    header_table_size = size;
    header_index = p.set_max_table_size size c.header_index;
  }

  unfoldable pub set_max_send_frame_size : ℕ → Codec p → Codec p
  set_max_send_frame_size size c = record c { max_send_frame_size = size }

  -- `AsyncRead for FramedRead`: the read buffer first, then the transport.
  unfoldable pub read : ℕ → Codec p → Outcome ProtError Bytes × Codec p
  read room c =
      if is_empty c.read_buf
      then elim (poll_read c.io room) [
        | wait io ↦ (pending, record c { io = io })
        | done b io ↦ (ok (take room b), record c { io = io })
        | fail e io ↦ (err (io_error e), record c { io = io })
      ]
      else let n = min room (length c.read_buf) in
        (ok (take n c.read_buf), record c { read_buf = drop n c.read_buf })

  decoded :
      Codec p
      → Result (Frame HeaderMap) × p.Decoder
      → Outcome ProtError (Option (Frame HeaderMap)) × Codec p
  decoded c (good f, d) = (ok (some f), record c { decoder = d })
  decoded c (bad e, d) = (err e, record c { decoder = d })

  decode_frame : Bytes → Codec p → Outcome ProtError (Option (Frame HeaderMap)) × Codec p
  unfolding decoded
  decode_frame bytes c = elim (p.parse_header bytes) [
    | good (head, rest) ↦ decoded c (p.parse_frame head rest c.decoder c.max_header_list_size)
    | bad e ↦ (err e, c)
  ]

  -- `Stream for FramedRead`. A decoded frame is always `Some`, so the loop of the code runs once.
  unfoldable pub poll_next : Codec p → Outcome ProtError (Option (Frame HeaderMap)) × Codec p
  unfolding decode_frame
  poll_next c = elim (p.next_frame c.read_buf c.io) [
    | wait (buf, io) ↦ (pending, record c { read_buf = buf; io = io })
    | done (some bytes) (buf, io) ↦ decode_frame bytes (record c { read_buf = buf; io = io })
    | done none (buf, io) ↦ (ok none, record c { read_buf = buf; io = io })
    | fail e (buf, io) ↦ (err (io_error e), record c { read_buf = buf; io = io })
  ]
