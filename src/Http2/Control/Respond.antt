-- ===== src/Http2/Control/Respond.antt =====
-- src/http2/control.rs: `build_response_frame` and `poll_response`, the client's side. The loop takes fuel
-- as that of `poll_request` does.
pub mod Unfinished
use dmeng.Prelude.{ℕ, zero, suc, Bool, Option, none, some, [], ◌∷◌, if◌then◌else◌}
use dmeng.Prelude.Poll.{Outcome, pending, ok, err, panic, spin}
use dmeng.Error.{ProtError, library_go_away}
use dmeng.Http2.Platform.{Platform}
use dmeng.Http2.InnerStream.{InnerStream}
use dmeng.Http2.InnerStream.Respond.{Responses, RecvResponse, build_response}
use dmeng.Http2.Control.{Control, Conn, M, ◌>>=◌, ◌>>◌, find, put, finish_stream}
use dmeng.Http2.Control.Poll.{on_handshake, on_next, receive, prepare}

module _ (p : Platform) (w : Responses p) where
  -- The first ready stream. A stream that is not there any more panics.
  build_ready :
      ℕ → InnerStream p → Control p → Outcome ProtError (Option (RecvResponse p w)) × Control p
  unfolding finish_stream
  build_ready id s k =
      let (out, s') = build_response p w s in
      let k' = record k { recv_frames = put id s' k.recv_frames } in
      elim out [
        | ok (is_end, r) ↦ (
          ok (some (record r { stream_id = some id })),
          if is_end then finish_stream p id k' else k',
        )
        | pending ↦ (pending, k')
        | err e ↦ (err e, k')
        | panic ↦ (panic, k')
        | spin ↦ (spin, k')
      ]

  unfoldable pub build_response_frame :
      Control p → Outcome ProtError (Option (RecvResponse p w)) × Control p
  unfolding build_ready
  build_response_frame k = elim k.ready_queue [
    | [] ↦ (ok none, k)
    | id ∷ rest ↦
        let k' = record k { ready_queue = rest } in
        elim (find id k.recv_frames) [ none ↦ (panic, k') | some s ↦ build_ready id s k' ]
  ]

  -- Nothing more is received for now.
  hand_out : M p (Option (RecvResponse p w))
  unfolding library_go_away
  hand_out s =
      let (out, k) = build_response_frame s.control in
      let s' : Conn p = record s { control = k } in
      elim out [
        | ok (some r) ↦ (ok (some r), s')
        | ok none ↦ elim k.error [
          | some e ↦ (err (library_go_away e.reason), s')
          | none ↦ (pending, s')
        ]
        | pending ↦ (pending, s')
        | err e ↦ (err e, s')
        | panic ↦ (panic, s')
        | spin ↦ (spin, s')
      ]

  unfoldable pub response_loop : ℕ → M p (Option (RecvResponse p w))
  unfolding prepare on_next receive hand_out
  response_loop zero s = (spin, s)
  response_loop (suc fuel) s =
      let (ready, s₁) = prepare p s in
      elim ready [
        | ok u ↦
            let (next, s₂) = on_next p s₁ in
            elim next [
              | ok (some frame) ↦
                  let (received, s₃) = receive p frame s₂ in
                  elim received [
                    | ok v ↦ response_loop fuel s₃
                    | pending ↦ (pending, s₃)
                    | err e ↦ (err e, s₃)
                    | panic ↦ (panic, s₃)
                    | spin ↦ (spin, s₃)
                  ]
              | ok none ↦ (ok none, s₂)
              | err e ↦ (err e, s₂)
              | pending ↦ hand_out s₂
              | panic ↦ (panic, s₂)
              | spin ↦ (spin, s₂)
            ]
        | pending ↦ (pending, s₁)
        | err e ↦ (err e, s₁)
        | panic ↦ (panic, s₁)
        | spin ↦ (spin, s₁)
      ]

  unfoldable pub poll_response : ℕ → M p (Option (RecvResponse p w))
  unfolding on_handshake response_loop
  poll_response fuel = do on_handshake p; response_loop fuel
