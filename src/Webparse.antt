-- ===== src/Webparse.antt =====
-- What src takes from webparse's `Helper`: the chunked transfer coding of HTTP/1.1.
use dmeng.Prelude.{ℕ, ◌+◌, ◌≤◌, ◌<◌, ◌≡◌, ◌++◌, length}
use dmeng.Error.{Bytes}
use dmeng.Transport.{Result, good}

-- `Helper::parse_chunk_data`: the bytes of the chunk's head and the size in it, or that the buffer
-- does not hold the chunk yet, or an error.
pub data Chunk : Type 0 where
  whole : ℕ → ℕ → Chunk
  partial : Chunk
  broken : ℕ → Chunk

pub record Helper : Type 0 where
  pub encode_chunk_data : Bytes → Bytes
  pub parse_chunk_data : Bytes → Chunk
  pub skip_new_line : Bytes → Result Bytes

-- The format: a chunk is a head that tells its size, its data and a line end, and it is parsed where
-- it is there with its line end. A head takes a byte at least, and a line end is not longer than what
-- it is skipped from.
pub record ChunkLaws (h : Helper) : Type 0 where
  pub head : ℕ → Bytes
  pub line_end : Bytes
  pub encode_lem : (d : Bytes) → h.encode_chunk_data d ≡ head (length d) ++ (d ++ line_end)
  pub parse_whole :
      (d rest : Bytes)
      → h.parse_chunk_data (head (length d) ++ (d ++ (line_end ++ rest)))
        ≡ whole (length (head (length d))) (length d)
  pub skip_line_end : (rest : Bytes) → h.skip_new_line (line_end ++ rest) ≡ good rest
  pub parse_progress :
      (b : Bytes) (u n : ℕ) → h.parse_chunk_data b ≡ whole u n → (0 < u) × (u + n ≤ length b)
  pub skip_shorter : (b c : Bytes) → h.skip_new_line b ≡ good c → length c ≤ length b
