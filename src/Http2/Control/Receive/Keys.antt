-- ===== src/Http2/Control/Receive/Keys.antt =====
-- The operations of src/http2/control.rs keep one entry for each stream.
use dmeng.Prelude.{Bool, true, false, ◌==◌, Bool-cases, Option-cases, inl, inr, List-cases}
use dmeng.Prelude.Poll.{split, is_pending, is_ok, is_err, is_panic, is_spin}
use dmeng.Http2.Frame.{Frame}
use dmeng.Http2.Platform.{Platform}
use dmeng.Http2.InnerStream
use dmeng.Http2.InnerStream.{InnerStream, poll_send, poll_push, build_request}
use dmeng.Http2.Control.{Control, find, put, finish_stream}
use dmeng.Http2.Control.Receive.{
  recv_frame, push_frame, queue_ready, build_request_frame, build_ready,
}
use dmeng.Http2.Control.Receive.Polls.{IsUnique, put-IsUnique, delete-IsUnique}

module _ (p : Platform) where
  queue_ready-IsUnique :
      (f : Frame p.HeaderMap) (b : Bool) (k : Control p)
      → IsUnique k.recv_frames
      → IsUnique (queue_ready p f b k).1.recv_frames
  unfolding queue_ready finish_stream
  queue_ready-IsUnique f b k u = elim (Bool-cases f.is_end_headers) [
    | inl ends ↦ elim (Bool-cases b) [
      | inl ended ↦ rw (ends, ended, queue_ready) (delete-IsUnique f.stream_id k.recv_frames u)
      | inr goes_on ↦ rw (ends, goes_on, queue_ready) u
    ]
    | inr more ↦ elim (Bool-cases b) [
      | inl ended ↦ rw (more, ended, queue_ready) (delete-IsUnique f.stream_id k.recv_frames u)
      | inr goes_on ↦ rw (more, goes_on, queue_ready) u
    ]
  ]

  pub recv_frame-IsUnique :
      (f : Frame p.HeaderMap) (k : Control p)
      → IsUnique k.recv_frames
      → IsUnique (recv_frame p f k).1.recv_frames
  unfolding recv_frame push_frame
  recv_frame-IsUnique f k u = elim (Bool-cases (f.stream_id == 0)) [
    | inl zeroth ↦ rw (zeroth, recv_frame) u
    | inr nonzero ↦ elim (Option-cases (find f.stream_id k.recv_frames)) [
      | inl unknown ↦
          let s = InnerStream.new p f in
          rw (nonzero, recv_frame)
            (rw (unknown, recv_frame)
              (queue_ready-IsUnique f false
                (record k { recv_frames = put f.stream_id s k.recv_frames })
                (put-IsUnique f.stream_id s k.recv_frames u)))
      | inr (s, known) ↦
          let s' = (poll_push p f s).1 in
          let u' = put-IsUnique f.stream_id s' k.recv_frames u in
          rw (nonzero, recv_frame)
            (rw (known, recv_frame)
              (elim (split (poll_push p f s).0) [
                | is_ok b e ↦
                    rw (e, push_frame)
                      (queue_ready-IsUnique f b
                        (record k { recv_frames = put f.stream_id s' k.recv_frames }) u')
                | is_err x e ↦ rw (e, push_frame) u'
                | is_pending e ↦ rw (e, push_frame) u'
                | is_panic e ↦ rw (e, push_frame) u'
                | is_spin e ↦ rw (e, push_frame) u'
              ]))
    ]
  ]

  pub build_request_frame-IsUnique :
      (k : Control p) → IsUnique k.recv_frames → IsUnique (build_request_frame p k).1.recv_frames
  unfolding build_request_frame build_ready finish_stream
  build_request_frame-IsUnique k u = elim (List-cases k.ready_queue) [
    | inl idle ↦ rw (idle, build_request_frame) u
    | inr (id, ids, ready) ↦ elim (Option-cases (find id k.recv_frames)) [
      | inl unknown ↦ rw (ready, build_request_frame) (rw (unknown, build_request_frame) u)
      | inr (s, known) ↦
          let s' = (build_request p s).1 in
          let u' = put-IsUnique id s' k.recv_frames u in
          rw (ready, build_request_frame)
            (rw (known, build_request_frame)
              (elim (split (build_request p s).0) [
                | is_ok (true, r) e ↦
                    rw (e, build_ready) (delete-IsUnique id (put id s' k.recv_frames) u')
                | is_ok (false, r) e ↦ rw (e, build_ready) u'
                | is_err x e ↦ rw (e, build_ready) u'
                | is_pending e ↦ rw (e, build_ready) u'
                | is_panic e ↦ rw (e, build_ready) u'
                | is_spin e ↦ rw (e, build_ready) u'
              ]))
    ]
  ]
