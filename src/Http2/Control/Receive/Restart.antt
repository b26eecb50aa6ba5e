-- ===== src/Http2/Control/Receive/Restart.antt =====
-- src/http2/control.rs: a second HEADERS frame of a stream whose request has not been handed out yet.
use dmeng.Prelude.{ℕ, ◌≡◌, refl, Bool, false, none, some, [], ◌∷◌, ◌++◌, ◌==◌, ◌||◌}
use dmeng.Http2.Frame.{Frame, HeaderBlock}
use dmeng.Http2.Platform.{Platform}
use dmeng.Http2.InnerStream
use dmeng.Http2.InnerStream.{InnerStream}
use dmeng.Http2.InnerStream.Build.{header_frame}
use dmeng.Http2.Control.{Control, find}
use dmeng.Http2.Control.Streams.{find-put}
use dmeng.Http2.Control.Receive.{recv_frame, queue_ready}

module _ (p : Platform) where
  -- A HEADERS frame of a stream not seen before makes the stream ready.
  pub recv_frame-first :
      (id : ℕ) (ended : Bool) (h : HeaderBlock p.HeaderMap) (k : Control p)
      → id == 0 ≡ false
      → find id k.recv_frames ≡ none
      → let k' = (recv_frame p (header_frame id ended h) k).1 in
        (k'.ready_queue ≡ k.ready_queue ++ id ∷ [])
        × (find id k'.recv_frames ≡ some (InnerStream.new p (header_frame id ended h)))
  unfolding recv_frame queue_ready
  recv_frame-first id ended h k nonzero unknown =
      rw (nonzero, recv_frame)
        (rw (unknown, recv_frame)
          (refl, find-put id (InnerStream.new p (header_frame id ended h)) k.recv_frames))

  pub recv_frame-unfinished :
      (id : ℕ) (ended : Bool) (h : HeaderBlock p.HeaderMap) (k : Control p)
      → id == 0 ≡ false
      → find id k.recv_frames ≡ none
      → (recv_frame p (header_frame id ended h) k).1.finish_streams ≡ k.finish_streams
  unfolding recv_frame queue_ready
  recv_frame-unfinished id ended h k nonzero unknown =
      rw (nonzero, recv_frame) (rw (unknown, recv_frame) refl)

  abbrev pushed : Frame p.HeaderMap → InnerStream p → InnerStream p
  pushed f s = record s {
    end_headers = s.end_headers || f.is_end_headers;
    end_stream = s.end_stream || f.is_end_stream;
    frames = s.frames ++ f ∷ [];
  }
