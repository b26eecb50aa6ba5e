-- ===== src/Http2/Control/Receive/Receives.antt =====
-- `recv_frame` of src/http2/control.rs keeps every ready stream waiting, where END_HEADERS comes once.
use dmeng.Prelude.{
  ℕ, ◌≡◌, refl, sym, ap, ◌∙◌, true, false, Option, none, some, Option-cases, List, [], ◌∷◌, ◌==◌,
  ==_iff, arith, Bool-cases, inl, inr,
}
use dmeng.Prelude.Poll.{ok, split, is_pending, is_ok, is_err, is_panic, is_spin}
use dmeng.Http2.Frame.{Frame}
use dmeng.Http2.Platform.{Platform}
use dmeng.Http2.InnerStream
use dmeng.Http2.InnerStream.{InnerStream, build_request, poll_push, poll_send}
use dmeng.Http2.InnerStream.Safe.{poll_push-is_builder}
use dmeng.Http2.Control.{Control, find, put, contains, finish_stream}
use dmeng.Http2.Control.Receive.{recv_frame, push_frame, queue_ready}
use dmeng.Http2.Control.Streams.{find-put, find-put-other}
use dmeng.Http2.Control.Receive.Ready.{
  IsWaiting, AllWaiting, IsReady, AllWaiting-append, AllWaiting-put, AllWaiting-delete,
}

module _ (p : Platform) where
  queue_ready-IsReady :
      (f : Frame p.HeaderMap) (k : Control p)
      → IsReady p k
      → (f.is_end_headers ≡ true
          → IsWaiting p k.recv_frames f.stream_id × (contains f.stream_id k.ready_queue ≡ false))
      → IsReady p (queue_ready p f false k).1
  unfolding queue_ready
  queue_ready-IsReady f k v once = elim (Bool-cases f.is_end_headers) [
    | inl ends ↦
        rw (ends, queue_ready)
          (record {
            waiting =
                AllWaiting-append p k.recv_frames f.stream_id k.ready_queue (once ends).0
                  (once ends).1 v.waiting;
          })
    | inr goes_on ↦ rw (goes_on, queue_ready) (record { waiting = v.waiting })
  ]

  contains-IsWaiting :
      (m : List (ℕ × InnerStream p)) (id : ℕ) (ids : List ℕ)
      → contains id ids ≡ true
      → AllWaiting p m ids
      → IsWaiting p m id
  contains-IsWaiting m id [] present all = absurd (cc present)
  contains-IsWaiting m id (i ∷ ids) present (w, absent, rest) = elim (Bool-cases (i == id)) [
    | inl same ↦
        let at : i ≡ id = (==_iff i id).0 same in
        record {
          stream = w.stream;
          known = ap (λ j. find j m) (sym at) ∙ w.known;
          unbuilt = w.unbuilt;
        }
    | inr other ↦ contains-IsWaiting m id ids (ground arith) rest
  ]

  -- So a stream that is not there or is built is in no queue of waiting streams.
  unknown-absent :
      (m : List (ℕ × InnerStream p)) (id : ℕ) (ids : List ℕ)
      → find id m ≡ none
      → AllWaiting p m ids
      → contains id ids ≡ false
  unknown-absent m id ids unknown all = elim (Bool-cases (contains id ids)) [
    | inl present ↦ absurd (cc (sym unknown ∙ (contains-IsWaiting m id ids present all).known))
    | inr absent ↦ absent
  ]

  some-injective :
      {s t : InnerStream p} → ◌≡◌ {A = Option (InnerStream p)} (some s) (some t) → s ≡ t
  some-injective h = cc

  pub built-absent :
      (m : List (ℕ × InnerStream p)) (id : ℕ) (s : InnerStream p) (ids : List ℕ)
      → find id m ≡ some s
      → s.is_builder ≡ true
      → AllWaiting p m ids
      → contains id ids ≡ false
  built-absent m id s ids known built all = elim (Bool-cases (contains id ids)) [
    | inl present ↦
        let w = contains-IsWaiting m id ids present all in
        let same : s ≡ w.stream = some-injective (sym known ∙ w.known) in
        absurd (cc (sym built ∙ ap (λ (t : InnerStream p). t.is_builder) same ∙ w.unbuilt))
    | inr absent ↦ absent
  ]

  -- A waiting stream that is put back unbuilt waits as before.
  AllWaiting-put-back :
      (m : List (ℕ × InnerStream p)) (id : ℕ) (s : InnerStream p) (ids : List ℕ)
      → s.is_builder ≡ false
      → AllWaiting p m ids
      → AllWaiting p (put id s m) ids
  AllWaiting-put-back m id s [] unbuilt all = tt
  AllWaiting-put-back m id s (i ∷ ids) unbuilt (w, absent, rest) =
      let w' : IsWaiting p (put id s m) i = elim (Bool-cases (id == i)) [
        | inl same ↦
            let at : id ≡ i = (==_iff id i).0 same in
            record {
              stream = s;
              known = ap (λ j. find j (put id s m)) (sym at) ∙ find-put id s m;
              unbuilt = unbuilt;
            }
        | inr other ↦ record {
          stream = w.stream;
          known = find-put-other i id s m other ∙ w.known;
          unbuilt = w.unbuilt;
        }
      ] in
      (w', absent, AllWaiting-put-back m id s ids unbuilt rest)

  -- Whatever a frame does to its stream, the ready streams are waiting afterwards.
  AllWaiting-pushed :
      (f : Frame p.HeaderMap) (m : List (ℕ × InnerStream p)) (s : InnerStream p) (ids : List ℕ)
      → find f.stream_id m ≡ some s
      → AllWaiting p m ids
      → AllWaiting p (put f.stream_id (poll_push p f s).1 m) ids
  AllWaiting-pushed f m s ids known all = elim (Bool-cases s.is_builder) [
    | inl built ↦
        AllWaiting-put p m f.stream_id (poll_push p f s).1 ids
          (built-absent m f.stream_id s ids known built all) all
    | inr unbuilt ↦
        AllWaiting-put-back m f.stream_id (poll_push p f s).1 ids
          (poll_push-is_builder p f s ∙ unbuilt) all
  ]

  poll_push-ends :
      (f : Frame p.HeaderMap) (s : InnerStream p)
      → (poll_push p f s).0 ≡ ok true
      → s.is_builder ≡ true
  unfolding poll_push poll_send
  poll_push-ends f s ended = elim (Bool-cases s.is_builder) [
    | inl built ↦ built
    | inr unbuilt ↦ ground arith
  ]

  stream_ended-IsReady :
      (f : Frame p.HeaderMap) (k : Control p)
      → IsReady p k
      → f.is_end_headers ≡ false
      → contains f.stream_id k.ready_queue ≡ false
      → IsReady p (queue_ready p f true k).1
  unfolding queue_ready finish_stream
  stream_ended-IsReady f k v goes_on absent =
      rw (goes_on, queue_ready)
        (record {
          waiting = AllWaiting-delete p k.recv_frames f.stream_id k.ready_queue absent v.waiting;
        })

  -- END_HEADERS comes once for a stream: where the frame has it, the stream is not ready yet, and is not
  -- built where it is there.
  abbrev pub ComesOnce : Frame p.HeaderMap → Control p → Type 0
  ComesOnce f k =
      f.is_end_headers ≡ true
      → (contains f.stream_id k.ready_queue ≡ false)
        × ((s : InnerStream p) → find f.stream_id k.recv_frames ≡ some s → s.is_builder ≡ false)

  push_frame-IsReady :
      (f : Frame p.HeaderMap) (s : InnerStream p) (k : Control p)
      → IsReady p k
      → find f.stream_id k.recv_frames ≡ some s
      → ComesOnce f k
      → IsReady p (push_frame p f s k).1
  unfolding push_frame
  push_frame-IsReady f s k v known once =
      let s' = (poll_push p f s).1 in
      let m = put f.stream_id s' k.recv_frames in
      let pushed : IsReady p (record k { recv_frames = m }) = record {
        waiting = AllWaiting-pushed f k.recv_frames s k.ready_queue known v.waiting;
      } in
      elim (split (poll_push p f s).0) [
        | is_ok false e ↦
            rw (e, push_frame)
              (queue_ready-IsReady f (record k { recv_frames = m }) pushed
                (λ ends. (
                  record {
                    stream = s';
                    known = find-put f.stream_id s' k.recv_frames;
                    unbuilt = poll_push-is_builder p f s ∙ (once ends).1 s known;
                  },
                  (once ends).0,
                )))
        | is_ok true e ↦
            let built = poll_push-ends f s e in
            rw (e, push_frame)
              (stream_ended-IsReady f (record k { recv_frames = m }) pushed
                (elim (Bool-cases f.is_end_headers) [
                  | inl ends ↦ absurd (cc (sym built ∙ (once ends).1 s known))
                  | inr goes_on ↦ goes_on
                ])
                (built-absent k.recv_frames f.stream_id s k.ready_queue known built v.waiting))
        | is_err x e ↦ rw (e, push_frame) pushed
        | is_pending e ↦ rw (e, push_frame) pushed
        | is_panic e ↦ rw (e, push_frame) pushed
        | is_spin e ↦ rw (e, push_frame) pushed
      ]

  -- Receiving a HEADERS or DATA frame, whatever becomes of it, keeps every ready stream waiting, where
  -- END_HEADERS comes once for the stream.
  pub recv_frame-IsReady :
      (f : Frame p.HeaderMap) (k : Control p)
      → IsReady p k
      → ComesOnce f k
      → IsReady p (recv_frame p f k).1
  unfolding recv_frame InnerStream.new
  recv_frame-IsReady f k v once = elim (Bool-cases (f.stream_id == 0)) [
    | inl zeroth ↦ rw (zeroth, recv_frame) v
    | inr nonzero ↦ elim (Option-cases (find f.stream_id k.recv_frames)) [
      | inr (s, known) ↦
          rw (nonzero, recv_frame) (rw (known, recv_frame) (push_frame-IsReady f s k v known once))
      | inl unknown ↦
          let s = InnerStream.new p f in
          let absent = unknown-absent k.recv_frames f.stream_id k.ready_queue unknown v.waiting in
          rw (nonzero, recv_frame)
            (rw (unknown, recv_frame)
              (queue_ready-IsReady f (record k { recv_frames = put f.stream_id s k.recv_frames })
                (record {
                  waiting =
                      AllWaiting-put p k.recv_frames f.stream_id s k.ready_queue absent v.waiting;
                })
                (λ ends. (
                  record {
                    stream = s;
                    known = find-put f.stream_id s k.recv_frames;
                    unbuilt = refl;
                  },
                  absent,
                ))))
    ]
  ]
