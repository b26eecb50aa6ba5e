-- ===== src/Http2/InnerStream/Respond/Open.antt =====
-- `build_response` of src/http2/inner_stream.rs does not note the END_STREAM that it meets, as
-- `build_request` does: it never says that the stream has ended by that.
use dmeng.Prelude.{◌≡◌, Bool, true, false, ◌&&◌, Option, none, some, List, [], ◌==◌, if◌then◌else◌}
use dmeng.Prelude.Poll.{Outcome, pending, ok, err, panic, spin}
use dmeng.Error.{ProtError}
use dmeng.HeaderHelper
use dmeng.HeaderHelper.{http2}
use dmeng.Body.State
use dmeng.Body.State.{Body}
use dmeng.Http2.Frame.{Frame}
use dmeng.Http2.Platform.{Platform, Result, good, bad}
use dmeng.Http2.InnerStream.{InnerStream, is_end, usize_max, is_nil}
use dmeng.Http2.InnerStream.Respond.{
  Responses, RecvResponse, Building, build_loop, built, with_headers, finish_build, build_response,
}

module _ (p : Platform) (w : Responses p) where
  -- An answer that does not say that the stream has ended.
  abbrev pub IsOpen : Outcome ProtError (Bool × RecvResponse p w) × InnerStream p → Type 0
  IsOpen (ok (true, r), s) = ⊥
  IsOpen (ok (false, r), s) = Unit {0}
  IsOpen (pending, s) = Unit {0}
  IsOpen (err e, s) = Unit {0}
  IsOpen (panic, s) = Unit {0}
  IsOpen (spin, s) = Unit {0}

  built-IsOpen :
      (s : InnerStream p) (builder : w.ResponseBuilder) (body : Body w.bodies)
      → s.end_stream ≡ false
      → IsOpen (built p w s builder body)
  unfolding built is_end
  built-IsOpen s builder body e = answered s.end_stream (w.into_body builder) e
    where
      stored : InnerStream p
      stored = record s {
        content_len = if w.get_body_len builder == 0 then usize_max else w.get_body_len builder;
        is_builder = true;
      }

      answered :
          (ended : Bool) (u : Result (Unit {0}))
          → ended ≡ false
          → IsOpen (elim u as (λ _. Outcome ProtError (Bool × RecvResponse p w) × InnerStream p) [
            | bad x ↦ (err x, stored)
            | good v ↦ (
              ok (
                true && (ended && is_nil s.frames),
                record { builder = builder; body = body; stream_id = none },
              ),
              stored,
            )
          ])
      answered ended (bad x) h = tt
      answered false (good v) h = tt
      answered true (good v) h = absurd (cc)

  with_headers-IsOpen :
      (s : InnerStream p) (builder : w.ResponseBuilder) (h : w.words.HeaderMap)
      (body : Body w.bodies)
      → s.end_stream ≡ false
      → IsOpen (with_headers p w s builder h body)
  unfolding with_headers
  with_headers-IsOpen s builder h body e =
      settled (HeaderHelper.process_headers w.words w.bodies w.fuel w.times http2 true h body)
    where
      settled :
          (r : Outcome ProtError (Unit {0}) × w.words.HeaderMap × Body w.bodies)
          → IsOpen (elim r.0 as (λ _. Outcome ProtError (Bool × RecvResponse p w) × InnerStream p) [
            | ok u ↦ built p w s (w.set_headers r.1 builder) r.2
            | err x ↦ (err x, s)
            | pending ↦ (pending, s)
            | panic ↦ (panic, s)
            | spin ↦ (spin, s)
          ])
      settled (ok u, h', body') = built-IsOpen s (w.set_headers h' builder) body' e
      settled (err x, h', body') = tt
      settled (pending, h', body') = tt
      settled (panic, h', body') = tt
      settled (spin, h', body') = tt

  finish_build-IsOpen :
      (s : InnerStream p) (b : Building p w) → s.end_stream ≡ false → IsOpen (finish_build p w s b)
  unfolding finish_build
  finish_build-IsOpen s b e = with_map (w.headers_mut b.builder)
    where
      taken : InnerStream p
      taken = record s {
        frames = [];
        sender = if b.is_nobody then s.sender else some p.channel_new;
      }

      body : Body w.bodies
      body =
          if b.is_nobody
          then State.empty w.bodies
          else State.new w.bodies w.receiver b.binary b.is_end_stream

      with_map :
          (h : Option w.words.HeaderMap)
          → IsOpen (elim h as (λ _. Outcome ProtError (Bool × RecvResponse p w) × InnerStream p) [
            | none ↦ (panic, taken)
            | some m ↦ with_headers p w taken b.builder m body
          ])
      with_map none = tt
      with_map (some m) = with_headers-IsOpen taken b.builder m body e

  -- The response that is built of a stream that has not been told its end leaves the stream open, whatever
  -- frames it is built of.
  pub build_response-IsOpen :
      (s : InnerStream p) → s.end_stream ≡ false → IsOpen (build_response p w s)
  unfolding build_response
  build_response-IsOpen s e = joined (build_loop p w s.frames _)
    where
      joined :
          (r : Outcome ProtError (Building p w) × List (Frame p.HeaderMap))
          → IsOpen (elim r.0 as (λ _. Outcome ProtError (Bool × RecvResponse p w) × InnerStream p) [
            | ok b ↦ finish_build p w s b
            | err x ↦ (err x, record s { frames = r.1 })
            | pending ↦ (pending, record s { frames = r.1 })
            | panic ↦ (panic, record s { frames = r.1 })
            | spin ↦ (spin, record s { frames = r.1 })
          ])
      joined (ok b, rest) = finish_build-IsOpen s b e
      joined (err x, rest) = tt
      joined (pending, rest) = tt
      joined (panic, rest) = tt
      joined (spin, rest) = tt
