-- ===== src/Http2/InnerStream/Respond.antt =====
-- `build_response` of src/http2/inner_stream.rs: the client's response from the frames of its stream. Its
-- headers and its body go through src/header_helper.rs.
pub mod Open
use dmeng.Prelude.{
  ℕ, Bool, true, false, Option, none, some, List, [], ◌∷◌, ◌++◌, ◌==◌, if◌then◌else◌,
}
use dmeng.Prelude.Poll.{Outcome, pending, ok, err, panic, spin}
use dmeng.Error.{Bytes, ProtError, library_go_away}
use dmeng.HeaderHelper
use dmeng.HeaderHelper.{Headers, http2}
use dmeng.Body.Platform as BodyPlatform
use dmeng.Body.State
use dmeng.Body.State.{Body}
use dmeng.Body.Process.{Times}
use dmeng.Http2.Frame.{Frame, HeaderBlock, payload, headers}
use dmeng.Http2.Platform.{Platform, Result, good, bad}
use dmeng.Http2.State.Settings.{protocol_error}
use dmeng.Http2.InnerStream.{InnerStream, is_end, usize_max}

-- What webparse and the body's libraries give for a response under construction. `receiver` is the other
-- end of a new channel, and `headers_mut` fails for a builder that has failed.
pub record Responses (p : Platform) : Type 1 where
  pub ResponseBuilder : Type 0
  pub response_builder : ResponseBuilder
  pub into_response : HeaderBlock p.HeaderMap → ResponseBuilder → Result ResponseBuilder
  pub get_body_len : ResponseBuilder → ℕ
  pub into_body : ResponseBuilder → Result (Unit {0})
  pub words : Headers
  pub headers_mut : ResponseBuilder → Option words.HeaderMap
  pub set_headers : words.HeaderMap → ResponseBuilder → ResponseBuilder
  pub bodies : BodyPlatform.Platform
  pub receiver : bodies.Channel
  pub fuel : ℕ
  pub times : ℕ → Times

pub record RecvResponse (p : Platform) (w : Responses p) : Type 0 where
  pub builder : w.ResponseBuilder
  pub body : Body w.bodies
  pub stream_id : Option ℕ

module _ (p : Platform) (w : Responses p) where
  -- What the loop keeps in its variables.
  pub record Building : Type 0 where
    pub builder : w.ResponseBuilder
    pub is_nobody : Bool
    pub is_end_stream : Bool
    pub binary : Bytes

  unfoldable pub build_loop :
      List (Frame p.HeaderMap) → Building → Outcome ProtError Building × List (Frame p.HeaderMap)
  unfolding library_go_away
  build_loop [] b = (ok b, [])
  build_loop (v ∷ rest) b = elim v.kind [
    | headers header ↦ elim (w.into_response header b.builder) [
      | good builder ↦ build_loop rest (record b {
        builder = builder;
        is_nobody = v.is_end_stream;
        is_end_stream = v.is_end_stream;
      })
      | bad e ↦ (err e, rest)
    ]
    | payload d ↦
        build_loop rest (record b { is_end_stream = v.is_end_stream; binary = b.binary ++ d })
    | _ ↦ (err (library_go_away protocol_error), rest)
  ]

  -- The end of the function, with the headers that `process_headers` leaves. `end_stream` is not set.
  built :
      InnerStream p
      → w.ResponseBuilder
      → Body w.bodies
      → Outcome ProtError (Bool × RecvResponse p w) × InnerStream p
  unfolding is_end
  built s builder body =
      let len = w.get_body_len builder in
      let s' : InnerStream p = record s {
        content_len = if len == 0 then usize_max else len;
        is_builder = true;
      } in
      elim (w.into_body builder) [
        | bad e ↦ (err e, s')
        | good u ↦
            (ok (is_end p s', record { builder = builder; body = body; stream_id = none }), s')
      ]

  with_headers :
      InnerStream p
      → w.ResponseBuilder
      → w.words.HeaderMap
      → Body w.bodies
      → Outcome ProtError (Bool × RecvResponse p w) × InnerStream p
  unfolding built
  with_headers s builder h body =
      let (out, h', body') =
        HeaderHelper.process_headers w.words w.bodies w.fuel w.times http2 true h body in
      elim out [
        | ok u ↦ built s (w.set_headers h' builder) body'
        | err e ↦ (err e, s)
        | pending ↦ (pending, s)
        | panic ↦ (panic, s)
        | spin ↦ (spin, s)
      ]

  finish_build :
      InnerStream p → Building → Outcome ProtError (Bool × RecvResponse p w) × InnerStream p
  unfolding with_headers
  finish_build s b =
      let s' : InnerStream p = record s {
        frames = [];
        sender = if b.is_nobody then s.sender else some p.channel_new;
      } in
      let body =
        if b.is_nobody
        then State.empty w.bodies
        else State.new w.bodies w.receiver b.binary b.is_end_stream in
      elim (w.headers_mut b.builder) [
        | none ↦ (panic, s')
        | some h ↦ with_headers s' b.builder h body
      ]

  unfoldable pub build_response :
      InnerStream p → Outcome ProtError (Bool × RecvResponse p w) × InnerStream p
  unfolding build_loop finish_build
  build_response s =
      let (out, rest) = build_loop s.frames (record {
        builder = w.response_builder;
        is_nobody = false;
        is_end_stream = false;
        binary = [];
      }) in
      elim out [
        | ok b ↦ finish_build s b
        | err e ↦ (err e, record s { frames = rest })
        | pending ↦ (pending, record s { frames = rest })
        | panic ↦ (panic, record s { frames = rest })
        | spin ↦ (spin, record s { frames = rest })
      ]
