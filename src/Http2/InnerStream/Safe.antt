-- ===== src/Http2/InnerStream/Safe.antt =====
-- What the operations of src/http2/inner_stream.rs never do: panic while a request is built, or change
-- whether it was.
use dmeng.Prelude.{
  true, ℕ, zero, suc, ◌≡◌, ◌≢◌, refl, ◌∙◌, List, [], ◌∷◌, ◌++◌, length, arith, ◌||◌, Bool-cases,
  inl, inr,
}
use dmeng.Prelude.Poll.{ok, panic, spin}
use dmeng.Http2.Frame.{Frame}
use dmeng.Http2.Platform.{Platform}
use dmeng.Http2.InnerStream.{
  InnerStream, Building, build_loop, finish_build, build_request, send_loop, poll_send, poll_push,
  deliver,
}

module _ (p : Platform) where
  build_loop-safe :
      (fs : List (Frame p.HeaderMap)) (b : Building p)
      → ((build_loop p fs b).0 ≢ panic) × ((build_loop p fs b).0 ≢ spin)
  unfolding build_loop
  build_loop-safe [] b = ((λ h. cc), λ h. cc)
  build_loop-safe (v ∷ rest) b = grind (arith, build_loop-safe rest)

  finish_build-safe :
      (s : InnerStream p) (b : Building p)
      → ((finish_build p s b).0 ≢ panic) × ((finish_build p s b).0 ≢ spin)
  unfolding finish_build
  finish_build-safe s b = ground arith

  pub build_request-safe :
      (s : InnerStream p) → ((build_request p s).0 ≢ panic) × ((build_request p s).0 ≢ spin)
  unfolding build_request
  build_request-safe s = grind (arith, build_loop-safe s.frames, finish_build-safe s)

  deliver-is_builder :
      (f : Frame p.HeaderMap) (rest : List (Frame p.HeaderMap)) (ch : p.Channel) (s : InnerStream p)
      → (deliver p f rest ch s).1.is_builder ≡ s.is_builder
  unfolding deliver
  deliver-is_builder f rest ch s = ground arith

  send_loop-is_builder :
      (fuel : ℕ) (s : InnerStream p) → (send_loop p fuel s).1.is_builder ≡ s.is_builder
  unfolding send_loop
  send_loop-is_builder zero s = refl
  send_loop-is_builder (suc fuel) s = grind (arith, send_loop-is_builder fuel, deliver-is_builder)

  pub poll_send-is_builder : (s : InnerStream p) → (poll_send p s).1.is_builder ≡ s.is_builder
  unfolding poll_send
  poll_send-is_builder s = elim (Bool-cases s.is_builder) [
    | inr unbuilt ↦ rw (unbuilt, poll_send) unbuilt
    | inl built ↦ rw (built, poll_send) (send_loop-is_builder (suc (length s.frames)) s ∙ built)
  ]

  -- So what a stream that is not built answers is never that it has ended.
  pub poll_send-ends : (s : InnerStream p) → (poll_send p s).0 ≡ ok true → s.is_builder ≡ true
  unfolding poll_send
  poll_send-ends s ended = elim (Bool-cases s.is_builder) [
    | inl built ↦ built
    | inr unbuilt ↦ ground arith
  ]

  pub poll_push-is_builder :
      (f : Frame p.HeaderMap) (s : InnerStream p) → (poll_push p f s).1.is_builder ≡ s.is_builder
  unfolding poll_push poll_send
  poll_push-is_builder f s =
      let pushed : InnerStream p = record s {
        end_headers = s.end_headers || f.is_end_headers;
        end_stream = s.end_stream || f.is_end_stream;
        frames = s.frames ++ f ∷ [];
      } in
      elim (Bool-cases s.is_builder) [
        | inr unbuilt ↦ rw (unbuilt, poll_send) unbuilt
        | inl built ↦
            rw (built, poll_send)
              (send_loop-is_builder (suc (length (s.frames ++ f ∷ []))) pushed ∙ built)
      ]
