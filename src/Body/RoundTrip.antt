-- ===== src/Body/RoundTrip.antt =====
-- A chunked body written by src/body.rs and read by src/send_stream.rs.
use dmeng.Prelude.{ℕ, ◌<◌, ◌≡◌, true, false, [], ◌++◌, append_assoc, length, ap, ◌∙◌}
use dmeng.Prelude.Poll.{ok}
use dmeng.Error.{Bytes}
use dmeng.Webparse.{ChunkLaws}
use dmeng.SendStream.{SendStream, put_slice}
use dmeng.SendStream
use dmeng.SendStream.Fixed.{concat}
use dmeng.SendStream.Chunked.{encoded, process_data-encoded}
use dmeng.Body.Platform.{Platform, SemaphoreLaws, ChannelLaws}
use dmeng.Body.State.{Body}
use dmeng.Body.Process.{Times}
use dmeng.Body.Plain.{IsPlain, messages}
use dmeng.Body.Output.{to_come, last_chunk}
use dmeng.Body.Output.Polls.{polls, polls-Outputs}

module _ (p : Platform) (laws : ChannelLaws p) (sem_laws : SemaphoreLaws p) (fuel : ℕ)
    (times : ℕ → Times) where
  -- A body that is not compressed is sent in chunks, over any number of polls, until it is done. A
  -- stream that waits for a chunked body, its buffer empty, and gets what the polls handed over, with
  -- any bytes behind it, is at its end with exactly the data that the body gave, and the bytes behind
  -- it are left. What the body gave and what it still holds are what it had at the start.
  pub process_data-polls :
      (chunk_laws : ChunkLaws p.helper) (n : ℕ) (b : Body p) (s : SendStream) (rest : Bytes)
      → IsPlain p laws sem_laws b
      → b.is_process_end ≡ false
      → b.cache_body_data ≡ []
      → length (messages p laws sem_laws b.receiver) < fuel
      → (polls p laws sem_laws fuel times n b).1.is_process_end ≡ true
      → s.is_end_headers ≡ true
      → s.is_chunked ≡ true
      → s.is_end ≡ false
      → s.read_buf ≡ []
      → let (wire, b') = polls p laws sem_laws fuel times n b in
        (given : Bytes) × (given ++ to_come p laws sem_laws b' ≡ to_come p laws sem_laws b)
        × (SendStream.process_data p.helper (put_slice (wire ++ rest) s) ≡ (
          ok tt,
          record s { is_end = true; real_read_buf = s.real_read_buf ++ given; read_buf = rest },
        ))
  unfolding put_slice
  process_data-polls chunk_laws n b s rest plain going start enough ended headers chunked reading
        fresh =
      let out = polls-Outputs p laws sem_laws fuel times n b plain going start enough in
      let wire = (polls p laws sem_laws fuel times n b).0 in
      let last = p.helper.encode_chunk_data [] in
      let coded : wire ≡ encoded p.helper out.pieces ++ last =
        out.coded ∙ ap (λ e. encoded p.helper out.pieces ++ last_chunk p laws sem_laws e) ended in
      let at =
        ap (λ x. x ++ (wire ++ rest)) fresh
        ∙ ap (λ x. x ++ rest) coded
        ∙ append_assoc (encoded p.helper out.pieces) last rest in
      (
        concat out.pieces,
        out.same,
        process_data-encoded p.helper chunk_laws out.pieces rest (put_slice (wire ++ rest) s)
            headers chunked reading out.full at,
      )
