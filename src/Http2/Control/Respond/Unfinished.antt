-- ===== src/Http2/Control/Respond/Unfinished.antt =====
-- A client's stream whose response has no body is never finished: its end is lost in `build_response`.
use dmeng.Prelude.{
  ℕ, ◌≡◌, refl, sym, ap, ◌∙◌, Bool, true, false, Option, none, some, List, [], ◌∷◌, ◌++◌, ◌==◌,
  if◌then◌else◌,
}
use dmeng.Prelude.Poll.{Outcome, pending, ok, err, panic, spin}
use dmeng.Error.{ProtError}
use dmeng.Http2.Frame.{HeaderBlock}
use dmeng.Http2.Platform.{Platform}
use dmeng.Http2.InnerStream
use dmeng.Http2.InnerStream.{InnerStream}
use dmeng.Http2.InnerStream.Build.{header_frame}
use dmeng.Http2.InnerStream.Respond.{Responses, RecvResponse, build_response}
use dmeng.Http2.InnerStream.Respond.Open.{IsOpen, build_response-IsOpen}
use dmeng.Http2.Control.{Control, find, put, contains, finish_stream}
use dmeng.Http2.Control.Streams.{find-put}
use dmeng.Http2.Control.Receive.{recv_frame}
use dmeng.Http2.Control.Receive.Restart.{recv_frame-first, recv_frame-unfinished}
use dmeng.Http2.Control.Respond.{build_response_frame, build_ready}

module _ (p : Platform) (w : Responses p) where
  abbrev Answer : Type 0
  Answer = Outcome ProtError (Option (RecvResponse p w)) × Control p

  -- The stream is still there and no stream has been finished, and what is handed out is this stream's.
  abbrev Lingers : ℕ → Control p → Answer → Type 0
  Lingers id k a =
      (a.1.finish_streams ≡ k.finish_streams)
      × ((s : InnerStream p) × (find id a.1.recv_frames ≡ some s))
      × ((r : RecvResponse p w) → a.0 ≡ ok (some r) → r.stream_id ≡ some id)

  named : Outcome ProtError (Option (RecvResponse p w)) → Option ℕ
  named (ok (some r)) = r.stream_id
  named (ok none) = none
  named pending = none
  named (err e) = none
  named panic = none
  named spin = none

  build_ready-Lingers :
      (id : ℕ) (s : InnerStream p) (k : Control p)
      → s.end_stream ≡ false
      → Lingers id k (build_ready p w id s k)
  unfolding build_ready named
  build_ready-Lingers id s k e = answered (build_response p w s) (build_response-IsOpen p w s e)
    where
      kept :
          (s' : InnerStream p) → (t : InnerStream p) × (find id (put id s' k.recv_frames) ≡ some t)
      kept s' = (s', find-put id s' k.recv_frames)

      answered :
          (r : Outcome ProtError (Bool × RecvResponse p w) × InnerStream p)
          → IsOpen p w r
          → let k' = record k { recv_frames = put id r.1 k.recv_frames } in
            Lingers id k
              (elim r.0 as (λ _. Outcome ProtError (Option (RecvResponse p w)) × Control p) [
                | ok (is_end, x) ↦ (
                  ok (some (record x { stream_id = some id })),
                  if is_end then finish_stream p id k' else k',
                )
                | pending ↦ (pending, k')
                | err x ↦ (err x, k')
                | panic ↦ (panic, k')
                | spin ↦ (spin, k')
              ])
      answered (ok (true, x), s') o = absurd o
      answered (ok (false, x), s') o = (refl, kept s', λ r h. sym (ap named h))
      answered (pending, s') o = (refl, kept s', λ r h. absurd (cc))
      answered (err x, s') o = (refl, kept s', λ r h. absurd (cc))
      answered (panic, s') o = (refl, kept s', λ r h. absurd (cc))
      answered (spin, s') o = (refl, kept s', λ r h. absurd (cc))

  build_response_frame-Lingers :
      (id : ℕ) (ids : List ℕ) (s : InnerStream p) (k : Control p)
      → k.ready_queue ≡ id ∷ ids
      → find id k.recv_frames ≡ some s
      → s.end_stream ≡ false
      → Lingers id k (build_response_frame p w k)
  unfolding build_response_frame
  build_response_frame-Lingers id ids s k ready known e =
      rw (ready, build_response_frame)
        (rw (known, build_response_frame)
          (build_ready-Lingers id s (record k { ready_queue = ids }) e))

  -- A response that is one HEADERS frame with END_HEADERS and END_STREAM, received while no stream is ready,
  -- on a stream that is neither known nor finished. Where it is handed out, it is handed out as that
  -- stream's, and the stream is then still kept and is not among those that are finished.
  pub build_response_frame-unfinished :
      (id : ℕ) (h : HeaderBlock p.HeaderMap) (k : Control p) (r : RecvResponse p w)
      → id == 0 ≡ false
      → find id k.recv_frames ≡ none
      → contains id k.finish_streams ≡ false
      → k.ready_queue ≡ []
      → let (out, k') = build_response_frame p w (recv_frame p (header_frame id true h) k).1 in
        out ≡ ok (some r)
        → (r.stream_id ≡ some id)
          × ((s : InnerStream p) × (find id k'.recv_frames ≡ some s))
          × (contains id k'.finish_streams ≡ false)
  unfolding InnerStream.new
  build_response_frame-unfinished id h k r nonzero unknown unfinished idle handed =
      let k₁ = (recv_frame p (header_frame id true h) k).1 in
      let (ready, known) = recv_frame-first p id true h k nonzero unknown in
      let (same, kept, names) =
        build_response_frame-Lingers id [] (InnerStream.new p (header_frame id true h)) k₁
          (ready ∙ ap (λ q. q ++ id ∷ []) idle) known refl in
      (
        names r handed,
        kept,
        ap (λ l. contains id l) (same ∙ recv_frame-unfinished p id true h k nonzero unknown)
            ∙ unfinished,
      )
