-- ===== src/Http2/InnerStream.antt =====
-- src/http2/inner_stream.rs: the frames received of one stream, until the request is built from them,
-- and from then on the way of its data to the request's body.
pub mod Deliver
pub mod Build
pub mod Safe
pub mod Respond
use dmeng.Prelude.{
  ℕ, zero, suc, ◌+◌, ◌-◌, ◌^◌, ◌%◌, Bool, true, false, ◌&&◌, ◌||◌, Option, none, some, List, [],
  ◌∷◌, ◌++◌, length, ltb, ◌==◌, if◌then◌else◌,
}
use dmeng.Prelude.Poll.{Outcome, pending, ok, err, panic, spin}
use dmeng.Error.{Bytes, ProtError, extension, library_go_away}
use dmeng.Http2.Frame.{Frame, Kind, payload, headers}
use dmeng.Http2.Platform.{Platform, good, bad}
use dmeng.Http2.State.Settings.{protocol_error}

pub record InnerStream (p : Platform) : Type 0 where
  pub frames : List (Frame p.HeaderMap)
  pub sender : Option p.Channel
  pub content_len : ℕ
  pub recv_len : ℕ
  pub end_headers : Bool
  pub end_stream : Bool
  pub is_builder : Bool

-- `Body::empty()`, or `Body::new(receiver, binary, is_end)` at the other end of the stream's channel.
pub data RecvBody : Type 0 where
  empty : RecvBody
  streaming : Bytes → Bool → RecvBody

-- The request handed out; `stream_id` is the extension that the connection puts into it.
pub record RecvRequest (p : Platform) : Type 0 where
  pub builder : p.RequestBuilder
  pub body : RecvBody
  pub stream_id : Option ℕ

abbrev pub usize_max : ℕ
usize_max = 2 ^ 64 - 1

abbrev pub is_nil {ℓ} : {A : Type ℓ} → List A → Bool
is_nil [] = true
is_nil (x ∷ xs) = false

module _ (p : Platform) where
  unfoldable pub new : Frame p.HeaderMap → InnerStream p
  new frame = record {
    frames = frame ∷ [];
    sender = none;
    content_len = 0;
    recv_len = 0;
    end_headers = false;
    end_stream = false;
    is_builder = false;
  }

  unfoldable pub is_end : InnerStream p → Bool
  is_end s = s.is_builder && (s.end_stream && is_nil s.frames)

  -- One frame for a reserved slot: the `match` of `poll_send`.
  deliver :
      Frame p.HeaderMap
      → List (Frame p.HeaderMap)
      → p.Channel
      → InnerStream p
      → Outcome ProtError (Unit {0}) × InnerStream p
  deliver frame rest channel s = elim frame.kind [
    | payload b ↦
        let received = (s.recv_len + length b) % 2 ^ 64 in
        (
          if ltb s.content_len received then err (extension "content len must not more") else ok tt,
          record s {
            frames = rest;
            recv_len = received;
            sender = some (p.send_item (frame.is_end_stream, b) channel);
          },
        )
    | _ ↦ (err (extension "must be data frame"), record s { frames = rest; sender = some channel })
  ]

  -- The `while` of `poll_send`. With no sender a round changes nothing and the code goes round again.
  unfoldable pub send_loop : ℕ → InnerStream p → Outcome ProtError Bool × InnerStream p
  unfolding deliver
  send_loop zero s = (spin, s)
  send_loop (suc fuel) s = elim s.frames [
    | [] ↦ (ok s.end_stream, s)
    | frame ∷ rest ↦ elim s.sender [
      | none ↦ send_loop fuel s
      | some channel ↦
          let (reserved, channel') = p.poll_reserve channel in
          elim reserved [
            | false ↦ (ok false, record s { sender = some channel' })
            | true ↦
                let (out, s') = deliver frame rest channel' s in
                elim out [
                  | ok u ↦ send_loop fuel s'
                  | pending ↦ (pending, s')
                  | err e ↦ (err e, s')
                  | panic ↦ (panic, s')
                  | spin ↦ (spin, s')
                ]
          ]
    ]
  ]

  unfoldable pub poll_send : InnerStream p → Outcome ProtError Bool × InnerStream p
  unfolding send_loop
  poll_send s = elim s.is_builder [
    | false ↦ (ok false, s)
    | true ↦ send_loop (suc (length s.frames)) s
  ]

  unfoldable pub poll_push :
      Frame p.HeaderMap → InnerStream p → Outcome ProtError Bool × InnerStream p
  unfolding poll_send
  poll_push frame s = poll_send (record s {
    end_headers = s.end_headers || frame.is_end_headers;
    end_stream = s.end_stream || frame.is_end_stream;
    frames = s.frames ++ frame ∷ [];
  })

  -- What the loop of `build_request` keeps in its variables.
  pub record Building : Type 0 where
    pub builder : p.RequestBuilder
    pub is_nobody : Bool
    pub is_end_stream : Bool
    pub binary : Bytes

  -- The loop, with the frames that it leaves.
  unfoldable pub build_loop :
      List (Frame p.HeaderMap) → Building → Outcome ProtError Building × List (Frame p.HeaderMap)
  unfolding library_go_away
  build_loop [] b = (ok b, [])
  build_loop (v ∷ rest) b = elim v.kind [
    | headers header ↦ elim (p.into_request header b.builder) [
      | good builder ↦ build_loop rest (record b {
        builder = builder;
        is_nobody = v.is_end_stream;
        is_end_stream = v.is_end_stream;
      })
      | bad e ↦ (err e, rest)
    ]
    | payload d ↦
        build_loop rest (record b { is_end_stream = v.is_end_stream; binary = b.binary ++ d })
    | _ ↦ (err (library_go_away protocol_error), rest)
  ]

  finish_build : InnerStream p → Building → Outcome ProtError (Bool × RecvRequest p) × InnerStream p
  unfolding is_end
  finish_build s b =
      let len = p.get_body_len b.builder in
      let s' : InnerStream p = record s {
        frames = [];
        end_stream = b.is_end_stream;
        sender = if b.is_nobody then s.sender else some p.channel_new;
        content_len = if len == 0 then usize_max else len;
        is_builder = true;
      } in
      let body = if b.is_nobody then empty else streaming b.binary b.is_end_stream in
      elim (p.into_body b.builder) [
        | bad e ↦ (err e, s')
        | good u ↦
            (ok (is_end s', record { builder = b.builder; body = body; stream_id = none }), s')
      ]

  unfoldable pub build_request :
      InnerStream p → Outcome ProtError (Bool × RecvRequest p) × InnerStream p
  unfolding build_loop finish_build
  build_request s =
      let (out, rest) = build_loop s.frames (record {
        builder = p.request_builder;
        is_nobody = false;
        is_end_stream = false;
        binary = [];
      }) in
      elim out [
        | ok b ↦ finish_build s b
        | err e ↦ (err e, record s { frames = rest })
        | pending ↦ (pending, record s { frames = rest })
        | panic ↦ (panic, record s { frames = rest })
        | spin ↦ (spin, record s { frames = rest })
      ]
