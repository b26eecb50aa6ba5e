-- ===== src/SendStream.antt =====
-- src/send_stream.rs: the bytes that come in over HTTP/1, taken out of their transfer coding. A buffer
-- is the bytes that remain in it.
pub mod Fixed
pub mod Chunked
pub mod Examples
use dmeng.Prelude.{
  ℕ, zero, suc, ◌-◌, min, Bool, true, false, not, [], ◌++◌, length, take, drop, ltb, ◌==◌,
  if◌then◌else◌,
}
use dmeng.Prelude.Poll.{Outcome, pending, ok, err, panic, spin}
use dmeng.Error.{Bytes, ProtError, web_error}
use dmeng.Transport.{Result, good, bad}
use dmeng.Webparse.{Chunk, whole, partial, broken, Helper}

pub record SendStream : Type 0 where
  pub read_buf : Bytes
  pub real_read_buf : Bytes
  pub is_chunked : Bool
  pub is_end : Bool
  pub is_end_headers : Bool
  pub left_read_body_len : ℕ

unfoldable pub empty : SendStream
empty = record {
  read_buf = [];
  real_read_buf = [];
  is_chunked = false;
  is_end = true;
  is_end_headers = false;
  left_read_body_len = 0;
}

unfoldable pub set_new_body : SendStream → SendStream
set_new_body s = record s {
  is_end_headers = true;
  is_end = false;
  is_chunked = false;
  left_read_body_len = 0;
}

unfoldable pub set_left_body : ℕ → SendStream → SendStream
set_left_body left s = record s { left_read_body_len = left; is_end = false }

unfoldable pub set_chunked : Bool → SendStream → SendStream
set_chunked chunked s = record s { is_chunked = chunked }

unfoldable pub set_end_headers : Bool → SendStream → SendStream
set_end_headers is_end_headers s = record s { is_end_headers = is_end_headers }

-- What a read of the transport puts in.
unfoldable pub put_slice : Bytes → SendStream → SendStream
put_slice b s = record s { read_buf = s.read_buf ++ b }

-- The branch of a body whose length is known.
unfoldable pub take_fixed : SendStream → SendStream
take_fixed s =
    let len = min s.left_read_body_len (length s.read_buf) in
    if len == 0 then s else record s {
      left_read_body_len = s.left_read_body_len - len;
      is_end = if s.left_read_body_len - len == 0 then true else s.is_end;
      real_read_buf = s.real_read_buf ++ take len s.read_buf;
      read_buf = drop len s.read_buf;
    }

module _ (h : Helper) where
  -- What follows the parse of a chunk: `true` says that the loop goes on. The slice panics where the
  -- buffer is shorter than the chunk.
  unfoldable pub take_chunk : Chunk → SendStream → Outcome ProtError Bool × SendStream
  take_chunk (whole u n) s =
      let rest = drop u s.read_buf in
      let s' = record s { is_end = n == 0; read_buf = rest } in
      if ltb (length rest) n
      then (panic, s')
      else let s'' = record s' {
        real_read_buf = s.real_read_buf ++ take n rest;
        read_buf = drop n rest;
      } in
        elim (h.skip_new_line (drop n rest)) [
          | good b ↦ (ok true, record s'' { read_buf = b })
          | bad e ↦ (err e, s'')
        ]
  take_chunk partial s = (ok false, s)
  take_chunk (broken e) s = (err (web_error e), s)

  -- The loop of a chunked body.
  unfoldable pub chunk_loop : ℕ → SendStream → Outcome ProtError (Unit {0}) × SendStream
  chunk_loop zero s = (spin, s)
  chunk_loop (suc fuel) s = elim s.is_end [
    | true ↦ (ok tt, s)
    | false ↦
        let r = take_chunk (h.parse_chunk_data s.read_buf) s in
        elim r.0 [
          | ok more ↦ elim more [ true ↦ chunk_loop fuel r.1 | false ↦ (ok tt, r.1) ]
          | err e ↦ (err e, r.1)
          | pending ↦ (pending, r.1)
          | panic ↦ (panic, r.1)
          | spin ↦ (spin, r.1)
        ]
  ]

  unfoldable pub process_data : SendStream → Outcome ProtError (Unit {0}) × SendStream
  process_data s =
      if not s.is_end_headers
      then (ok tt, s)
      else if s.is_chunked
      then chunk_loop (suc (length s.read_buf)) s
      else (ok tt, take_fixed s)

  -- The count, what is appended to the caller's buffer, and the stream.
  unfoldable pub read_data : SendStream → Outcome ProtError ℕ × Bytes × SendStream
  read_data s =
      let r = process_data s in
      let s' = r.1 in
      elim r.0 [
        | ok u ↦ (ok (length s'.real_read_buf), s'.real_read_buf, record s' { real_read_buf = [] })
        | err e ↦ (err e, [], s')
        | pending ↦ (pending, [], s')
        | panic ↦ (panic, [], s')
        | spin ↦ (spin, [], s')
      ]
