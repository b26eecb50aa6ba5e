-- ===== src/Http2/InnerStream/Build.antt =====
-- What src/http2/inner_stream.rs makes of the frames of a stream when its request is built.
use dmeng.Prelude.{
  ℕ, suc, ◌<◌, ◌≡◌, refl, Bool, true, false, none, some, List, [], ◌∷◌, ◌++◌, append_assoc,
  append-nil, length, length-append, arith, ◌&&◌, ◌||◌,
}
use dmeng.Prelude.Poll.{ok, spin}
use dmeng.Error.{Bytes}
use dmeng.Http2.Frame.{Frame, HeaderBlock, payload, headers}
use dmeng.Http2.Platform.{Platform, good}
use dmeng.Http2.InnerStream.{
  InnerStream, empty, streaming, Building, build_loop, finish_build, build_request, poll_push,
  poll_send,
}
use dmeng.Http2.InnerStream.Deliver.{send_loop-spins}

-- DATA frames by their bytes and END_STREAM flags, and what they hold together.
abbrev pub data_frames : {H : Type 0} → ℕ → List (Bytes × Bool) → List (Frame H)
data_frames id [] = []
data_frames id ((b, ended) ∷ ds) =
    record { stream_id = id; is_end_headers = false; is_end_stream = ended; kind = payload b }
    ∷ data_frames id ds

abbrev pub joined : List (Bytes × Bool) → Bytes
joined [] = []
joined ((b, ended) ∷ ds) = b ++ joined ds

abbrev pub last_flag : Bool → List (Bytes × Bool) → Bool
last_flag flag [] = flag
last_flag flag ((b, ended) ∷ ds) = last_flag ended ds

abbrev pub header_frame : {H : Type 0} → ℕ → Bool → HeaderBlock H → Frame H
header_frame id ended h = record {
  stream_id = id;
  is_end_headers = true;
  is_end_stream = ended;
  kind = headers h;
}

and_true : (b : Bool) → b && true ≡ b
and_true true = refl
and_true false = refl

module _ (p : Platform) where
  build_loop-data :
      (id : ℕ) (ds : List (Bytes × Bool)) (b : Building p)
      → build_loop p (data_frames id ds) b ≡ (
        ok (record b {
          is_end_stream = last_flag b.is_end_stream ds;
          binary = b.binary ++ joined ds;
        }),
        [],
      )
  unfolding build_loop
  build_loop-data id [] b = rw append-nil
  build_loop-data id ((d, ended) ∷ ds) b = rw (
    build_loop-data id ds (record b { is_end_stream = ended; binary = b.binary ++ d }),
    append_assoc,
  )

  -- The loop over one HEADERS frame and DATA frames after it, from the start.
  build_loop-message :
      (id : ℕ) (ended : Bool) (h : HeaderBlock p.HeaderMap) (ds : List (Bytes × Bool))
      (b : p.RequestBuilder)
      → p.into_request h p.request_builder ≡ good b
      → build_loop p (header_frame id ended h ∷ data_frames id ds) (record {
        builder = p.request_builder;
        is_nobody = false;
        is_end_stream = false;
        binary = [];
      })
        ≡ (
          ok (record {
            builder = b;
            is_nobody = ended;
            is_end_stream = last_flag ended ds;
            binary = joined ds;
          }),
          [],
        )
  unfolding build_loop
  build_loop-message id ended h ds b accepted = rw accepted (build_loop-data id ds _)

  -- A HEADERS frame without END_STREAM and any DATA frames after it, whose block webparse accepts, build
  -- a request with exactly the bytes of that data in its body, in order; the body and the stream are
  -- ended exactly if the last DATA frame says so, and no frame waits any more.
  pub build_request-joins :
      (id : ℕ) (h : HeaderBlock p.HeaderMap) (ds : List (Bytes × Bool)) (s : InnerStream p)
      (b : p.RequestBuilder)
      → s.frames ≡ header_frame id false h ∷ data_frames id ds
      → p.into_request h p.request_builder ≡ good b
      → p.into_body b ≡ good tt
      → let (out, s') = build_request p s in
        (out
          ≡ ok (
            last_flag false ds,
            record {
              builder = b;
              body = streaming (joined ds) (last_flag false ds);
              stream_id = none;
            },
          ))
        × (s'.frames ≡ [])
        × (s'.end_stream ≡ last_flag false ds)
        × (s'.is_builder ≡ true)
        × (s'.sender ≡ some p.channel_new)
  unfolding build_request
  build_request-joins id h ds s b frames accepted whole =
      rw (frames, build_request)
        (rw (build_loop-message id false h ds b accepted, finish_build)
          (rw (whole, finish_build)
            (rw (and_true (last_flag false ds)) (refl, refl, refl, refl, refl))))

  poll_push-spins :
      (frame : Frame p.HeaderMap) (s : InnerStream p)
      → s.is_builder ≡ true
      → s.sender ≡ none
      → (poll_push p frame s).0 ≡ spin
  unfolding poll_push
  poll_push-spins frame s built closed =
      let some_left : 0 < length (s.frames ++ frame ∷ []) =
        omega (arith, length-append s.frames (frame ∷ [])) in
      let pushed : InnerStream p = record s {
        end_headers = s.end_headers || frame.is_end_headers;
        end_stream = s.end_stream || frame.is_end_stream;
        frames = s.frames ++ frame ∷ [];
      } in
      rw (built, poll_send)
        (send_loop-spins p (suc (length (s.frames ++ frame ∷ []))) pushed closed some_left)

  -- A HEADERS frame with END_STREAM and DATA frames after it, the last of them without END_STREAM, build
  -- a request with an empty body and leave the stream open with no channel. Any frame received on it
  -- after that makes `poll_push` loop for ever.
  pub data_after_end-spins :
      (id : ℕ) (h : HeaderBlock p.HeaderMap) (ds : List (Bytes × Bool)) (s : InnerStream p)
      (b : p.RequestBuilder)
      → s.frames ≡ header_frame id true h ∷ data_frames id ds
      → s.sender ≡ none
      → last_flag true ds ≡ false
      → p.into_request h p.request_builder ≡ good b
      → p.into_body b ≡ good tt
      → let (out, s') = build_request p s in
        (out ≡ ok (false, record { builder = b; body = empty; stream_id = none }))
        × ((frame : Frame p.HeaderMap) → (poll_push p frame s').0 ≡ spin)
  unfolding build_request
  data_after_end-spins id h ds s b frames closed unended accepted whole =
      rw (frames, build_request)
        (rw (build_loop-message id true h ds b accepted, finish_build)
          (rw (whole, finish_build)
            (rw unended (refl, λ frame. poll_push-spins frame _ refl closed))))

  build_loop-trailers :
      (id : ℕ) (ds : List (Bytes × Bool)) (t : HeaderBlock p.HeaderMap) (b : Building p)
      (c : p.RequestBuilder)
      → p.into_request t b.builder ≡ good c
      → build_loop p (data_frames id ds ++ header_frame id true t ∷ []) b ≡ (
        ok (record {
          builder = c;
          is_nobody = true;
          is_end_stream = true;
          binary = b.binary ++ joined ds;
        }),
        [],
      )
  unfolding build_loop
  build_loop-trailers id [] t b c accepted = rw (accepted, build_loop) (rw append-nil refl)
  build_loop-trailers id ((d, ended) ∷ ds) t b c accepted = rw (
    build_loop-trailers id ds t (record b { is_end_stream = ended; binary = b.binary ++ d }) c
        accepted,
    append_assoc,
  )

  -- A request with trailers loses its body: where a HEADERS frame without END_STREAM, any DATA frames
  -- and a HEADERS frame with END_STREAM wait, and webparse accepts both blocks, the request built has an
  -- empty body whatever the data was, and the stream is at its end.
  pub build_request-trailers :
      (id : ℕ) (h t : HeaderBlock p.HeaderMap) (ds : List (Bytes × Bool)) (s : InnerStream p)
      (b c : p.RequestBuilder)
      → s.frames ≡ header_frame id false h ∷ (data_frames id ds ++ header_frame id true t ∷ [])
      → p.into_request h p.request_builder ≡ good b
      → p.into_request t b ≡ good c
      → p.into_body c ≡ good tt
      → (build_request p s).0 ≡ ok (true, record { builder = c; body = empty; stream_id = none })
  unfolding build_request
  build_request-trailers id h t ds s b c frames first second whole =
      let start : Building p = record {
        builder = p.request_builder;
        is_nobody = false;
        is_end_stream = false;
        binary = [];
      } in
      let looped = build_loop-trailers id ds t (record start { builder = b }) c second in
      rw (frames, build_request)
        (rw (first, build_loop) (rw (looped, finish_build) (rw (whole, finish_build) refl)))
