-- ===== src/Body/Codec.antt =====
-- src/body.rs: the bytes as it comes in is decoded into `read_buf`, and encoded from there into
-- `cache_body_data`. The counts that the encoding answers are used by no caller and left out; an I/O
-- error is a number.
use dmeng.Prelude.{
  ℕ, zero, suc, ◌+◌, Bool, true, not, Option, none, some, [], ◌++◌, length, ltb, ◌==◌,
  if◌then◌else◌,
}
use dmeng.Prelude.Poll.{Outcome, ok, err, panic, spin, ◌>>>◌}
use dmeng.Error.{Bytes}
use dmeng.Body.Platform.{Platform}
use dmeng.Body.State.{
  Body, InnerCompress, compress_method_none, compress_method_gzip, compress_method_deflate,
  compress_method_brotli, get_now_compress, notify_some_read,
}

-- The errors of reading and of an unknown method.
abbrev pub read_error : ℕ
read_error = 1

abbrev pub interrupted : ℕ
interrupted = 2

module _ (p : Platform) where
  abbrev pub Step : Type 0 → Type 0
  Step A = Outcome ℕ A × Body p

  unfoldable pub opened : ℕ → Option p.Encoder → p.Encoder
  opened method none = p.encoder_new method
  opened method (some e) = e

  unfoldable pub set_encoder : ℕ → Option p.Encoder → InnerCompress p → InnerCompress p
  set_encoder method e c =
      if method == compress_method_gzip
      then record c { write_gz = e }
      else if method == compress_method_deflate
      then record c { write_de = e }
      else record c { write_br = e }

  unfoldable pub get_encoder : ℕ → InnerCompress p → Option p.Encoder
  get_encoder method c =
      if method == compress_method_gzip
      then c.write_gz
      else if method == compress_method_deflate
      then c.write_de
      else c.write_br

  unfoldable pub inner_encode_write_data : Bytes → Bool → Bytes
  inner_encode_write_data bytes is_chunked =
      if is_chunked then p.helper.encode_chunk_data bytes else bytes

  -- What is put into the cache, in the framing of the body.
  put_cache : Bytes → Body p → Body p
  unfolding inner_encode_write_data
  put_cache bytes b = record b {
    cache_body_data = b.cache_body_data ++ inner_encode_write_data bytes b.is_chunked;
  }

  -- What a finished encoder holds, where it holds something, and the last chunk.
  put_finished : Option Bytes → Body p → Step (Unit {0})
  unfolding put_cache
  put_finished none b = (panic, b)
  put_finished (some value) b =
      let b' = if ltb 0 (length value) then put_cache value b else b in
      (ok tt, if b'.is_chunked then put_cache [] b' else b')

  -- An encoder is taken out of its field to be finished: gzip and deflate by `finish`, brotli by a
  -- flush and `into_inner`.
  finish_encoder : ℕ → Body p → Step (Unit {0})
  unfolding put_finished opened get_encoder set_encoder
  finish_encoder method b =
      let e = opened method (get_encoder method b.compress) in
      let b' = record b { compress = set_encoder method none b.compress } in
      if method == compress_method_brotli
      then elim (p.flush e) [
        | none ↦ (err read_error, b')
        | some e' ↦ put_finished (some (p.into_inner e')) b'
      ]
      else put_finished (p.finish e) b'

  -- The bytes goes through the encoder, and what it has put out by then goes to the cache.
  write_encoder : ℕ → Bytes → Body p → Step (Unit {0})
  unfolding put_cache opened get_encoder set_encoder
  write_encoder method bytes b =
      let e = opened method (get_encoder method b.compress) in
      elim (p.write_all bytes e) [
        | none ↦ (panic, record b { compress = set_encoder method (some e) b.compress })
        | some e' ↦
            if ltb 0 (length (p.get_mut e'))
            then (
              ok tt,
              put_cache (p.get_mut e')
                  (record b { compress = set_encoder method (some (p.clear e')) b.compress }),
            )
            else (ok tt, record b { compress = set_encoder method (some e') b.compress })
      ]

  is_encoder : ℕ → Bool
  is_encoder method =
      if method == compress_method_gzip
      then true
      else if method == compress_method_deflate
      then true
      else method == compress_method_brotli

  unfoldable pub encode_write_data : Bytes → Body p → Step (Unit {0})
  unfolding get_now_compress finish_encoder write_encoder put_cache is_encoder
  encode_write_data bytes b =
      let method = get_now_compress p b in
      if not (is_encoder method)
      then (ok tt, put_cache bytes b)
      else if length bytes == 0
      then finish_encoder method b
      else write_encoder method bytes b

  put_read : Bytes → Body p → Body p
  put_read bytes b = elim b.read_buf [
    | none ↦ record b { read_buf = some bytes }
    | some bin ↦ record b { read_buf = some (bin ++ bytes) }
  ]

  -- `read_all_data`: the outcome, the bytes read and the reader.
  unfoldable pub read_all_data : ℕ → ℕ → p.Decoder → Outcome ℕ ℕ × Bytes × p.Decoder
  read_all_data zero size d = (spin, [], d)
  read_all_data (suc fuel) size d =
      let r = p.decoder_read d in
      elim r.0 [
        | none ↦ (err read_error, [], r.1)
        | some bytes ↦
            if ltb (length bytes) 4096
            then (ok (size + length bytes), bytes, r.1)
            else let rest = read_all_data fuel (size + length bytes) r.1 in
              (rest.0, bytes ++ rest.1, rest.2)
      ]

  decoder : ℕ → Option p.Decoder → p.Decoder
  decoder method none = p.decoder_new method
  decoder method (some d) = d

  -- `origin` is not the method for which nothing is to be done. Only gzip's decoder is given the bytes.
  decode_reader : ℕ → Bytes → Body p → Outcome ℕ ℕ × Body p
  unfolding decoder put_read read_all_data
  decode_reader fuel bytes b =
      let dec = b.decompress in
      let de = read_all_data fuel 0 (decoder compress_method_deflate dec.reader_de) in
      let br = read_all_data fuel 0 (decoder compress_method_brotli dec.reader_br) in
      if b.origin_compress_method == compress_method_gzip
      then elim (p.decoder_write_all bytes (decoder compress_method_gzip dec.reader_gz)) [
        | none ↦ (
          err read_error,
          record b {
            decompress = record dec {
              reader_gz = some (decoder compress_method_gzip dec.reader_gz);
            };
          },
        )
        | some d ↦
            let gz = read_all_data fuel 0 d in
            (gz.0, put_read gz.1 (record b { decompress = record dec { reader_gz = some gz.2 } }))
      ]
      else if b.origin_compress_method == compress_method_deflate
      then (de.0, put_read de.1 (record b { decompress = record dec { reader_de = some de.2 } }))
      else if b.origin_compress_method == compress_method_brotli
      then (br.0, put_read br.1 (record b { decompress = record dec { reader_br = some br.2 } }))
      else (err interrupted, put_read [] b)

  after_decode : ℕ → Body p → Outcome ℕ ℕ × Body p
  unfolding notify_some_read
  after_decode size b =
      let b' = if b.is_end then record b { origin_compress_method = compress_method_none } else b in
      (ok size, notify_some_read p b')

  unfoldable pub decode_read_data : ℕ → Bytes → Body p → Outcome ℕ ℕ × Body p
  unfolding put_read decode_reader after_decode
  decode_read_data fuel bytes b =
      if b.origin_compress_method == compress_method_none
      then (ok (length bytes), put_read bytes b)
      else if b.origin_compress_method == b.now_compress_method
      then (ok 0, put_read bytes b)
      else (decode_reader fuel bytes (put_read [] b) >>> after_decode)
