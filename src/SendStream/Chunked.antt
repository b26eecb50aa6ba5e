-- ===== src/SendStream/Chunked.antt =====
-- A chunked body through src/send_stream.rs: what is encoded is decoded, and the loop ends.
use dmeng.Prelude.{
  ap, ℕ, zero, suc, ◌+◌, ◌≤◌, ◌<◌, ◌≡◌, ◌≢◌, true, false, List, [], ◌∷◌, ◌++◌, append_assoc, length,
  take, drop, length-drop, length-append, ltb, ◌==◌, arith, take-length-append, drop-length-append,
  ◌∙◌, refl,
}
use dmeng.Prelude.Poll.{ok, spin}
use dmeng.Prelude.{◌≢◌, zero, suc, ◌≤◌, ◌<◌}
use dmeng.Prelude.{inl, inr}
use dmeng.Error.{Bytes}
use dmeng.Transport.{Result-cases}
use dmeng.Webparse.{Chunk, whole, partial, broken, Helper, ChunkLaws}
use dmeng.SendStream.{SendStream, take_chunk, chunk_loop, process_data}
use dmeng.SendStream.Fixed.{concat}

not_short : (xs ys : Bytes) → ltb (length (xs ++ ys)) (length xs) ≡ false
not_short xs ys = ground (arith, length-append xs ys)

-- The encoded chunks of a body, without its end.
abbrev pub encoded : Helper → List Bytes → Bytes
encoded h [] = []
encoded h (d ∷ ds) = h.encode_chunk_data d ++ encoded h ds

abbrev pub NonEmpty : List Bytes → Type 0
NonEmpty [] = Unit {0}
NonEmpty (d ∷ ds) = (0 < length d) × NonEmpty ds

data Shape (c : Chunk) : Type 0 where
  is_whole : (u n : ℕ) → c ≡ whole u n → Shape c
  is_partial : c ≡ partial → Shape c
  is_broken : (e : ℕ) → c ≡ broken e → Shape c

Chunk-cases : (c : Chunk) → Shape c
Chunk-cases (whole u n) = is_whole u n refl
Chunk-cases partial = is_partial refl
Chunk-cases (broken e) = is_broken e refl

module _ (h : Helper) (laws : ChunkLaws h) where
  open laws use {
    head, line_end, encode_lem, parse_whole, skip_line_end, parse_progress, skip_shorter,
  }

  -- One chunk at the front of the buffer is taken out whole.
  take_chunk-encoded :
      (d rest : Bytes) (s : SendStream)
      → s.read_buf ≡ h.encode_chunk_data d ++ rest
      → take_chunk h (h.parse_chunk_data s.read_buf) s ≡ (
        ok true,
        record s { is_end = length d == 0; real_read_buf = s.real_read_buf ++ d; read_buf = rest },
      )
  unfolding take_chunk
  take_chunk-encoded d rest s at =
      let shape : s.read_buf ≡ head (length d) ++ (d ++ (line_end ++ rest)) =
        at ∙ simp (encode_lem, append_assoc) in
      let dropped = drop-length-append (head (length d)) (d ++ (line_end ++ rest)) in
      rw (shape, parse_whole d rest, dropped, not_short d (line_end ++ rest))
        (rw (drop-length-append d (line_end ++ rest), skip_line_end rest)
          (ap
            (λ b. (
              ok true,
              record s {
                is_end = length d == 0;
                real_read_buf = s.real_read_buf ++ b;
                read_buf = rest;
              },
            ))
            (ap (take (length d)) dropped ∙ take-length-append d (line_end ++ rest))))

  chunk_loop-step :
      (fuel : ℕ) (s s' : SendStream)
      → s.is_end ≡ false
      → take_chunk h (h.parse_chunk_data s.read_buf) s ≡ (ok true, s')
      → chunk_loop h (suc fuel) s ≡ chunk_loop h fuel s'
  unfolding chunk_loop
  chunk_loop-step fuel s s' going e = grind (arith, going, e)

  -- A list of chunks, none of them empty, and the last chunk.
  chunk_loop-encoded :
      (fuel : ℕ) (ds : List Bytes) (rest : Bytes) (s : SendStream)
      → s.is_end ≡ false
      → length ds + 2 ≤ fuel
      → NonEmpty ds
      → s.read_buf ≡ encoded h ds ++ (h.encode_chunk_data [] ++ rest)
      → chunk_loop h fuel s ≡ (
        ok tt,
        record s { is_end = true; real_read_buf = s.real_read_buf ++ concat ds; read_buf = rest },
      )
  unfolding chunk_loop
  chunk_loop-encoded zero ds rest s going enough full at = absurd (omega arith)
  chunk_loop-encoded (suc zero) ds rest s going enough full at = absurd (omega arith)
  chunk_loop-encoded (suc (suc fuel)) [] rest s going enough full at =
      chunk_loop-step (suc fuel) s _ going (take_chunk-encoded [] rest s at)
  chunk_loop-encoded (suc (suc fuel)) (d ∷ ds) rest s going enough full at =
      let at' =
        at ∙ append_assoc (h.encode_chunk_data d) (encoded h ds) (h.encode_chunk_data [] ++ rest) in
      let s' = record s {
        is_end = length d == 0;
        real_read_buf = s.real_read_buf ++ d;
        read_buf = encoded h ds ++ (h.encode_chunk_data [] ++ rest);
      } in
      let still : s'.is_end ≡ false = ground (arith, full.0) in
      chunk_loop-step (suc fuel) s s' going
        (take_chunk-encoded d (encoded h ds ++ (h.encode_chunk_data [] ++ rest)) s at')
      ∙ chunk_loop-encoded (suc fuel) ds rest s' still (omega arith) full.1 refl
      ∙ rw (append_assoc s.real_read_buf d (concat ds))

  encode-length : (d : Bytes) → 0 < length (h.encode_chunk_data d)
  encode-length d =
      let taken = parse_progress _ _ _ (parse_whole d []) in
      rw (encode_lem d, length-append (head (length d)) (d ++ line_end)) (omega (arith, taken.0))

  encoded-length : (ds : List Bytes) → length ds ≤ length (encoded h ds)
  encoded-length [] = omega arith
  encoded-length (d ∷ ds) = omega (
    arith,
    encode-length d,
    encoded-length ds,
    length-append (h.encode_chunk_data d) (encoded h ds),
  )

  -- Every round takes a byte.
  take_chunk-shorter :
      (s : SendStream)
      → let r = take_chunk h (h.parse_chunk_data s.read_buf) s in
        (r.0 ≢ spin) × (r.0 ≡ ok true → length r.1.read_buf < length s.read_buf)
  unfolding take_chunk
  take_chunk-shorter s = elim (Chunk-cases (h.parse_chunk_data s.read_buf)) [
    | is_whole u n f ↦
        let rest = drop n (drop u s.read_buf) in
        let progress = parse_progress s.read_buf u n f in
        let len = length-drop n (drop u s.read_buf) in
        let len' = length-drop u s.read_buf in
        elim (Result-cases (h.skip_new_line rest)) [
          | inl (b, g) ↦ ground (arith, f, g, skip_shorter rest b g)
          | inr (e, g) ↦ ground (arith, f, g)
        ]
    | is_partial f ↦ ground (arith, f)
    | is_broken v f ↦ ground (arith, f)
  ]

  chunk_loop-ne-spin :
      (fuel : ℕ) (s : SendStream) → length s.read_buf < fuel → (chunk_loop h fuel s).0 ≢ spin
  unfolding chunk_loop
  chunk_loop-ne-spin zero s enough = absurd (omega arith)
  chunk_loop-ne-spin (suc fuel) s enough =
      let r = take_chunk h (h.parse_chunk_data s.read_buf) s in
      ground (arith, take_chunk-shorter s, chunk_loop-ne-spin fuel r.1)

  -- The loop of src/send_stream.rs ends on every buffer, well-formed or not.
  pub process_data-ne-spin : (s : SendStream) → (process_data h s).0 ≢ spin
  unfolding process_data
  process_data-ne-spin s =
      ground (arith, chunk_loop-ne-spin (suc (length s.read_buf)) s (omega arith))

  -- What the encoder makes of a list of pieces of data, none of them empty, with the last chunk, is
  -- decoded to the pieces in their order; the stream is at its end, and what follows stays in the buffer.
  pub process_data-encoded :
      (ds : List Bytes) (rest : Bytes) (s : SendStream)
      → s.is_end_headers ≡ true
      → s.is_chunked ≡ true
      → s.is_end ≡ false
      → NonEmpty ds
      → s.read_buf ≡ encoded h ds ++ (h.encode_chunk_data [] ++ rest)
      → process_data h s ≡ (
        ok tt,
        record s { is_end = true; real_read_buf = s.real_read_buf ++ concat ds; read_buf = rest },
      )
  unfolding process_data
  process_data-encoded ds rest s headers chunked going full at =
      let fuel = suc (length s.read_buf) in
      let enough : length ds + 2 ≤ fuel = rw at (
        omega (
          arith,
          encoded-length ds,
          encode-length [],
          length-append (encoded h ds) (h.encode_chunk_data [] ++ rest),
          length-append (h.encode_chunk_data []) rest,
        )) in
      grind (arith, chunk_loop-encoded fuel ds rest s going enough full at)
