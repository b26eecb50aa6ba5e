-- ===== src/SendStream/Examples.antt =====
-- Runs of src/send_stream.rs on a coding whose head is one byte, the size, and whose line end is one.
use dmeng.Prelude.{
  ℕ, ◌+◌, ◌≤◌, ◌<◌, ◌≡◌, ◌≢◌, true, false, [], ◌∷◌, ◌++◌, length, min, leb, refl, if◌then◌else◌,
  length-append, arith,
}
use dmeng.Prelude.Poll.{ok, spin}
use dmeng.Error.{Bytes, ProtError}
use dmeng.Transport.{Result, good, bad}
use dmeng.Webparse.{Chunk, whole, partial, Helper, ChunkLaws}
use dmeng.SendStream.{SendStream, take_fixed, put_slice, process_data}
use dmeng.SendStream.Fixed.{take_fixed-conserves, feed, feed-concat}
use dmeng.SendStream.Chunked.{process_data-ne-spin, process_data-encoded}

abbrev pub parse : Bytes → Chunk
parse [] = partial
parse (n ∷ r) = if leb n (length r) then whole 1 n else partial

abbrev pub skip : Bytes → Result Bytes
skip [] = bad ProtError.send_error
skip (x ∷ r) = good r

abbrev pub simple : Helper
simple = record {
  encode_chunk_data = λ d. length d ∷ (d ++ (0 ∷ []));
  parse_chunk_data = parse;
  skip_new_line = skip;
}

parse_progress_lem : (b : Bytes) (u n : ℕ) → parse b ≡ whole u n → (0 < u) × (u + n ≤ length b)
parse_progress_lem [] u n h = ground arith
parse_progress_lem (x ∷ r) u n h = ground arith

parse_whole_lem : (d rest : Bytes) → parse (length d ∷ (d ++ (0 ∷ rest))) ≡ whole 1 (length d)
parse_whole_lem d rest = ground (arith, length-append d (0 ∷ rest))

skip_shorter_lem : (b c : Bytes) → skip b ≡ good c → length c ≤ length b
skip_shorter_lem [] c h = ground arith
skip_shorter_lem (x ∷ r) c h = ground arith

pub simple-ChunkLaws : ChunkLaws simple
simple-ChunkLaws = record {
  head = λ n. n ∷ [];
  line_end = 0 ∷ [];
  encode_lem = λ d. refl;
  parse_whole = parse_whole_lem;
  skip_line_end = λ rest. refl;
  parse_progress = parse_progress_lem;
  skip_shorter = skip_shorter_lem;
}

abbrev fixed : SendStream
fixed = record {
  read_buf = 1 ∷ 2 ∷ 3 ∷ [];
  real_read_buf = 9 ∷ [];
  is_chunked = false;
  is_end = false;
  is_end_headers = true;
  left_read_body_len = 2;
}

abbrev pub chunked : SendStream
chunked = record fixed { read_buf = []; is_chunked = true }

take_fixed-conserves_example :
    ((take_fixed fixed).real_read_buf ++ (take_fixed fixed).read_buf ≡ 9 ∷ 1 ∷ 2 ∷ 3 ∷ [])
    × (length (take_fixed fixed).real_read_buf + (take_fixed fixed).left_read_body_len ≡ 3)
    × (min (take_fixed fixed).left_read_body_len (length (take_fixed fixed).read_buf) ≡ 0)
take_fixed-conserves_example = take_fixed-conserves fixed

feed-concat_example :
    feed ((4 ∷ []) ∷ (5 ∷ 6 ∷ []) ∷ []) (record fixed { left_read_body_len = 5 })
    ≡ take_fixed (put_slice (4 ∷ 5 ∷ 6 ∷ []) (record fixed { left_read_body_len = 5 }))
feed-concat_example =
    feed-concat (4 ∷ []) ((5 ∷ 6 ∷ []) ∷ []) (record fixed { left_read_body_len = 5 })

process_data-ne-spin_example :
    (process_data simple (record chunked { read_buf = 2 ∷ 7 ∷ 8 ∷ 0 ∷ 3 ∷ [] })).0 ≢ spin
process_data-ne-spin_example =
    process_data-ne-spin simple simple-ChunkLaws
      (record chunked { read_buf = 2 ∷ 7 ∷ 8 ∷ 0 ∷ 3 ∷ [] })

process_data-encoded_example :
    process_data simple (record chunked { read_buf = 2 ∷ 7 ∷ 8 ∷ 0 ∷ 0 ∷ 0 ∷ 5 ∷ [] })
    ≡ (ok tt, record chunked { is_end = true; real_read_buf = 9 ∷ 7 ∷ 8 ∷ []; read_buf = 5 ∷ [] })
process_data-encoded_example =
    process_data-encoded simple simple-ChunkLaws ((7 ∷ 8 ∷ []) ∷ []) (5 ∷ [])
      (record chunked { read_buf = 2 ∷ 7 ∷ 8 ∷ 0 ∷ 0 ∷ 0 ∷ 5 ∷ [] }) refl refl refl
      (omega arith, tt) refl
