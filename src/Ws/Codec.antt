-- ===== src/Ws/Codec.antt =====
-- src/ws/codec: frames over a transport. The nested `WsCodec`, `FramedRead` and `FramedWrite` are one
-- record, and a buffer is the bytes that remain.
use dmeng.Prelude.{
  ℕ, Bool, not, Option, none, some, List, [], ◌∷◌, ◌++◌, drop, take, length, min, ◌==◌,
  if◌then◌else◌,
}
use dmeng.Prelude.Poll.{Outcome, pending, ok, err, ◌>>>◌}
use dmeng.Error.{Bytes, ProtError, io_error, web_error}
use dmeng.Transport.{wait, done, fail, good, bad}
use dmeng.Http2.Codec.{is_empty}
use dmeng.Http2.State.Handshake.{unexpected_eof}
use dmeng.Ws.Platform.{Platform, Decoded, incomplete, item, failed}

pub record WsCodec (p : Platform) : Type 0 where
  pub io : p.Io
  -- FramedRead
  pub read_buf : Bytes
  pub is_client : Bool
  pub caches : List p.DataFrame
  -- FramedWrite
  pub binary : Bytes

module _ (p : Platform) where
  unfoldable pub new : p.Io → Bool → WsCodec p
  new io is_client = record {
    io = io;
    read_buf = [];
    is_client = is_client;
    caches = [];
    binary = [];
  }

  -- `MyCodec::decode`: an unexpected end says that more bytes are wanted.
  unfoldable pub decode : Bool → Bytes → Decoded p.DataFrame
  decode is_client src = elim (p.read_dataframe src (not is_client) 100000) [
    | incomplete ↦ incomplete
    | item f size ↦ item f size
    | failed e ↦ if e == unexpected_eof then incomplete else failed e
  ]

  unfoldable pub is_write_end : WsCodec p → Bool
  is_write_end c = is_empty c.binary

  -- One write, as in src/http2.
  unfoldable pub flush : WsCodec p → Outcome ProtError (Unit {0}) × WsCodec p
  flush c = if is_empty c.binary then (ok tt, c) else elim (p.poll_write c.io c.binary) [
    | wait io ↦ (pending, record c { io = io })
    | done n io ↦ (ok tt, record c { io = io; binary = drop n c.binary })
    | fail e io ↦ (err (io_error e), record c { io = io })
  ]

  -- `has_capacity` is always true.
  unfoldable pub poll_ready : WsCodec p → Outcome ProtError (Unit {0}) × WsCodec p
  poll_ready c = (ok tt, c)

  unfoldable pub shutdown : WsCodec p → Outcome ProtError (Unit {0}) × WsCodec p
  unfolding flush
  shutdown c = flush c >>> λ u d. elim (p.poll_shutdown d.io) [
    | wait io ↦ (pending, record d { io = io })
    | done v io ↦ (ok tt, record d { io = io })
    | fail e io ↦ (err (io_error e), record d { io = io })
  ]

  unfoldable pub set_cache_buf : Bytes → Bytes → WsCodec p → WsCodec p
  set_cache_buf read_buf write_buf c = record c {
    read_buf = c.read_buf ++ read_buf;
    binary = c.binary ++ write_buf;
  }

  -- `random` is the mask of a client's message.
  unfoldable pub send_msg : p.Message → Bool → ℕ → WsCodec p → Outcome ProtError ℕ × WsCodec p
  send_msg msg mask random c = elim (p.write_to msg (if mask then some random else none)) [
    | good b ↦ (ok 0, record c { binary = c.binary ++ b })
    | bad e ↦ (err e, c)
  ]

  -- `AsyncRead` of the reader: what is buffered comes first.
  unfoldable pub poll_read : ℕ → WsCodec p → Outcome ProtError Bytes × WsCodec p
  poll_read room c =
      let n = min room (length c.read_buf) in
      if is_empty c.read_buf
      then elim (p.poll_read c.io room) [
        | wait io ↦ (pending, record c { io = io })
        | done b io ↦ (ok b, record c { io = io })
        | fail e io ↦ (err (io_error e), record c { io = io })
      ]
      else (ok (take n c.read_buf), record c { read_buf = drop n c.read_buf })

  -- A frame that ends its message hands the message out; any other is kept, and the poll waits.
  unfoldable pub take_frame :
      p.DataFrame → WsCodec p → Outcome ProtError (Option p.Message) × WsCodec p
  take_frame frame c =
      let frames = c.caches ++ (frame ∷ []) in
      if p.finished frame
      then elim (p.from_dataframes frames) [
        | good m ↦ (ok (some m), record c { caches = [] })
        | bad e ↦ (err e, record c { caches = [] })
      ]
      else (pending, record c { caches = frames })

  unfoldable pub poll_next : WsCodec p → Outcome ProtError (Option p.Message) × WsCodec p
  unfolding take_frame decode
  poll_next c = elim (p.next_item (decode c.is_client) c.read_buf c.io) [
    | wait s ↦ (pending, record c { read_buf = s.0; io = s.1 })
    | fail e s ↦ (
      if e == unexpected_eof then pending else err (web_error e),
      record c { read_buf = s.0; io = s.1 },
    )
    | done none s ↦ (ok none, record c { read_buf = s.0; io = s.1 })
    | done (some frame) s ↦ take_frame frame (record c { read_buf = s.0; io = s.1 })
  ]
