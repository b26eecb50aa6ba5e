-- ===== src/Http2/Control/Receive.antt =====
-- src/http2/control.rs: what becomes of a received HEADERS or DATA frame, and of the streams that are
-- ready to be handed out.
pub mod Restart
pub mod Ready
pub mod Receives
pub mod Polls
pub mod Finishes
pub mod Keys
pub mod Steps
use dmeng.Prelude.{
  ℕ, Bool, true, false, Option, none, some, List, [], ◌∷◌, ◌++◌, max, ◌==◌, if◌then◌else◌,
}
use dmeng.Prelude.Poll.{Outcome, pending, ok, err, panic, spin}
use dmeng.Error.{ProtError}
use dmeng.Http2.Frame.{Frame}
use dmeng.Http2.Platform.{Platform}
use dmeng.Http2.InnerStream
use dmeng.Http2.InnerStream.{InnerStream, RecvRequest}
use dmeng.Http2.Control.{Control, find, put, finish_stream}

module _ (p : Platform) where
  -- The end of `recv_frame`, once the frame is with its stream.
  queue_ready : Frame p.HeaderMap → Bool → Control p → Outcome ProtError (Option Bool) × Control p
  unfolding finish_stream
  queue_ready frame is_end k =
      let k' = if is_end then finish_stream p frame.stream_id k else k in
      let k'' = record k' { last_stream_id = max k'.last_stream_id frame.stream_id } in
      if frame.is_end_headers
      then (ok (some true), record k'' { ready_queue = k''.ready_queue ++ frame.stream_id ∷ [] })
      else (ok none, k'')

  push_frame :
      Frame p.HeaderMap → InnerStream p → Control p → Outcome ProtError (Option Bool) × Control p
  unfolding queue_ready
  push_frame frame s k =
      let (out, s') = InnerStream.poll_push p frame s in
      let k' = record k { recv_frames = put frame.stream_id s' k.recv_frames } in
      elim out [
        | ok is_end ↦ queue_ready frame is_end k'
        | pending ↦ (pending, k')
        | err e ↦ (err e, k')
        | panic ↦ (panic, k')
        | spin ↦ (spin, k')
      ]

  unfoldable pub recv_frame :
      Frame p.HeaderMap → Control p → Outcome ProtError (Option Bool) × Control p
  unfolding queue_ready push_frame
  recv_frame frame k =
      if frame.stream_id == 0 then (ok none, k) else elim (find frame.stream_id k.recv_frames) [
        | none ↦
            queue_ready frame false (record k {
              recv_frames = put frame.stream_id (InnerStream.new p frame) k.recv_frames;
            })
        | some s ↦ push_frame frame s k
      ]

  -- The `for` of `poll_recv_frame`: the streams that have ended, and the streams afterwards.
  pub poll_streams :
      List (ℕ × InnerStream p) → Outcome ProtError (List ℕ) × List (ℕ × InnerStream p)
  poll_streams [] = (ok [], [])
  poll_streams ((id, s) ∷ rest) =
      let (out, s') = InnerStream.poll_send p s in
      let (ended, rest') = poll_streams rest in
      elim out [
        | ok is_end ↦ elim ended [
          | ok ids ↦ (ok (if is_end then id ∷ ids else ids), (id, s') ∷ rest')
          | pending ↦ (pending, (id, s') ∷ rest')
          | err e ↦ (err e, (id, s') ∷ rest')
          | panic ↦ (panic, (id, s') ∷ rest')
          | spin ↦ (spin, (id, s') ∷ rest')
        ]
        | pending ↦ (pending, (id, s') ∷ rest)
        | err e ↦ (err e, (id, s') ∷ rest)
        | panic ↦ (panic, (id, s') ∷ rest)
        | spin ↦ (spin, (id, s') ∷ rest)
      ]

  finish_all : List ℕ → Control p → Control p
  unfolding finish_stream
  finish_all [] k = k
  finish_all (id ∷ ids) k = finish_all ids (finish_stream p id k)

  unfoldable pub poll_recv_frame : Control p → Outcome ProtError (Unit {0}) × Control p
  unfolding poll_streams finish_all
  poll_recv_frame k =
      let (out, streams) = poll_streams k.recv_frames in
      let k' = record k { recv_frames = streams } in
      elim out [
        | ok ids ↦ (ok tt, finish_all ids k')
        | pending ↦ (pending, k')
        | err e ↦ (err e, k')
        | panic ↦ (panic, k')
        | spin ↦ (spin, k')
      ]

  -- `build_request_frame` for the first ready stream. A stream that is not there any more panics.
  build_ready :
      ℕ → InnerStream p → Control p → Outcome ProtError (Option (RecvRequest p)) × Control p
  unfolding finish_stream
  build_ready id s k =
      let (out, s') = InnerStream.build_request p s in
      let k' = record k { recv_frames = put id s' k.recv_frames } in
      elim out [
        | ok (is_end, r) ↦ (
          ok (some (record r { stream_id = some id })),
          if is_end then finish_stream p id k' else k',
        )
        | pending ↦ (pending, k')
        | err e ↦ (err e, k')
        | panic ↦ (panic, k')
        | spin ↦ (spin, k')
      ]

  unfoldable pub build_request_frame :
      Control p → Outcome ProtError (Option (RecvRequest p)) × Control p
  unfolding build_ready
  build_request_frame k = elim k.ready_queue [
    | [] ↦ (ok none, k)
    | id ∷ rest ↦
        let k' = record k { ready_queue = rest } in
        elim (find id k.recv_frames) [ none ↦ (panic, k') | some s ↦ build_ready id s k' ]
  ]
