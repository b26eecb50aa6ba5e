-- ===== src/Http2/Platform.antt =====
-- What src/http2 takes from other libraries: tokio's I/O, webparse's frames and headers, the tree of
-- `rbtree`, a channel of tokio. An implementation is a value of `Platform`; what the theorems assume
-- of one is a field of `Lawful`.
use Prim.Native.String.{String}
use dmeng.Prelude.{ℕ, ◌≤◌, ◌<◌, ◌≡◌, Bool, Option, List, ◌++◌, length, take}
pub use dmeng.Transport.{Polled, wait, done, fail, Result, good, bad}
use dmeng.Error.{Bytes}
use dmeng.Http2.Frame.{Frame, HeaderBlock, Ping, Settings, PriorityFrame}

pub record Platform : Type 1 where
  -- The transport `T: AsyncRead + AsyncWrite`; a read is given the room that it may fill.
  pub Io : Type 0
  pub poll_write : Io → Bytes → Polled Io ℕ
  pub poll_read : Io → ℕ → Polled Io Bytes
  pub poll_shutdown : Io → Polled Io (Unit {0})
  -- webparse: HPACK tables, frames, header maps, requests under construction.
  pub HeaderMap : Type 0
  pub HeaderIndex : Type 0
  pub index_new : HeaderIndex
  pub set_max_table_size : ℕ → HeaderIndex → HeaderIndex
  pub encode : HeaderIndex → ℕ → Frame HeaderMap → Result Bytes × HeaderIndex
  pub Decoder : Type 0
  pub decoder_new : Decoder
  pub FrameHeader : Type 0
  pub parse_header : Bytes → Result (FrameHeader × Bytes)
  pub parse_frame : FrameHeader → Bytes → Decoder → ℕ → Result (Frame HeaderMap) × Decoder
  pub magic : Bytes
  pub ret_pong : Ping → Ping
  pub settings_ack : Settings
  pub RequestBuilder : Type 0
  pub request_builder : RequestBuilder
  pub into_request : HeaderBlock HeaderMap → RequestBuilder → Result RequestBuilder
  pub get_body_len : RequestBuilder → ℕ
  pub into_body : RequestBuilder → Result (Unit {0})
  pub header_new : HeaderMap
  pub header_insert : String → String → HeaderMap → HeaderMap
  pub header_iter : HeaderMap → List (String × String)
  -- `name == HeaderName::CONTENT_LENGTH`, and an `isize` read from a value: its sign and magnitude.
  pub is_content_length : String → Bool
  pub parse_isize : String → Option (Bool × ℕ)
  pub status_text : ℕ → String
  pub is_nobody : String → Bool
  -- `StreamIdentifier::next_id`: the identifier given out, and the one that is kept.
  pub next_id : ℕ → ℕ × ℕ
  -- src/body.rs behind its interface: the bytes that `poll_encode_write` puts out.
  pub Body : Type 0
  pub body_is_end : Body → Bool
  pub poll_encode_write : Body → Bytes × Body
  -- tokio-util's length-delimited frames over a read buffer: the next frame's bytes, or the end.
  pub next_frame : Bytes → Io → Polled (Bytes × Io) (Option Bytes)
  -- rbtree::RBTree with the frames as keys.
  pub SendQueue : Type 0
  pub queue_new : SendQueue
  pub queue_len : SendQueue → ℕ
  pub queue_is_empty : SendQueue → Bool
  pub queue_insert : PriorityFrame HeaderMap → SendQueue → SendQueue
  pub queue_first : SendQueue → Option (PriorityFrame HeaderMap)
  pub queue_pop_first : SendQueue → Option (PriorityFrame HeaderMap × SendQueue)
  -- tokio's mpsc channel behind a `PollSender`: `true` says that a slot is reserved.
  pub Channel : Type 0
  pub channel_new : Channel
  pub poll_reserve : Channel → Bool × Channel
  pub send_item : Bool × Bytes → Channel → Channel

-- The documented behaviour of the transport: a write takes at most what it was given, a write or a
-- read that is not ready or fails moves nothing, and a read takes from the front of what comes in.
-- `sent` and `incoming` observe it: the bytes taken so far, and those still to be read.
pub record Lawful (p : Platform) : Type 1 where
  pub sent : p.Io → Bytes
  pub incoming : p.Io → Bytes
  pub write_wait : (s t : p.Io) (b : Bytes) → p.poll_write s b ≡ wait t → sent t ≡ sent s
  pub write_fail : (s t : p.Io) (b : Bytes) (e : ℕ) → p.poll_write s b ≡ fail e t → sent t ≡ sent s
  pub write_done :
      (s t : p.Io) (b : Bytes) (n : ℕ)
      → p.poll_write s b ≡ done n t
      → (n ≤ length b) × (sent t ≡ sent s ++ take n b)
  pub write_keeps_incoming_wait :
      (s t : p.Io) (b : Bytes) → p.poll_write s b ≡ wait t → incoming t ≡ incoming s
  pub write_keeps_incoming :
      (s t : p.Io) (b : Bytes) (n : ℕ) → p.poll_write s b ≡ done n t → incoming t ≡ incoming s
  pub read_wait :
      (s t : p.Io) (n : ℕ)
      → p.poll_read s n ≡ wait t
      → (incoming t ≡ incoming s) × (sent t ≡ sent s)
  pub read_done :
      (s t : p.Io) (n : ℕ) (b : Bytes)
      → p.poll_read s n ≡ done b t
      → (incoming s ≡ take n b ++ incoming t) × (sent t ≡ sent s)

-- A write that is ready takes at least one byte. Not every transport promises that.
abbrev pub Progresses : Platform → Type 0
Progresses p = (s t : p.Io) (b : Bytes) (n : ℕ) → p.poll_write s b ≡ done n t → 0 < length b → 0 < n
