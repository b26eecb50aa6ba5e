-- ===== src/Server/Incoming.antt =====
-- src/server.rs: `incoming`, the loop over the requests of a connection. It ends with the end of the
-- service or with the move to WebSocket, whose loop is in Server/Messages.
pub mod Served
pub mod Rounds
pub mod Sorting
pub mod Service
pub mod Unheard
use Prim.Native.String.{String}
use text.Mathlib.Text.{◌==◌ as str_eq}
use dmeng.Prelude.{
  ℕ, zero, suc, ◌+◌, ◌%◌, ◌^◌, Bool, not, false, ◌||◌, Option, none, some, List, [], ◌∷◌, leb, ◌==◌,
  if◌then◌else◌,
}
use dmeng.Prelude.Poll.{Outcome, pending, ok, err, panic, spin, ◌>>>◌}
use dmeng.Error.{Bytes, ProtError, RequestRef, extension, server_upgrade_http2, server_upgrade_ws}
use dmeng.Ws.Message.{WsOption}
use dmeng.Server.Parts.{Parts}
use dmeng.Server.Setup.{Server, by_connection, flush, send_response}

-- `wrapping_add(1)` of a `usize`.
abbrev pub wrapping_next : ℕ → ℕ
wrapping_next n = (n + 1) % 2 ^ 64

-- A `match` on an error: a move to HTTP/2, a move to WebSocket, or another one.
abbrev pub by_error :
    {C : Type 0} → (Bytes → Option RequestRef → C) → (RequestRef → C) → C → ProtError → C
by_error f g c (server_upgrade_http2 b r) = f b r
by_error f g c (server_upgrade_ws r) = g r
by_error f g c _ = c

-- What a round of the loop leads to: another round, the end, or the WebSocket connection with the receiver
-- of its messages and its options.
pub data Next (x : Parts) : Type 0 where
  again : Next x
  ended : Next x
  upgraded : x.Receiver → Option (WsOption x.Receiver) → Next x

module _ (x : Parts) where
  -- The handler, the middlewares and a connection of HTTP/1.1 after a request.
  after_h1 :
      Outcome ProtError (Option Bool) × x.Http × List x.Middle × x.H1
      → Server x
      → Outcome ProtError (Option Bool) × Server x
  after_h1 a s = (a.0, record s { callback_http = some a.1; middles = a.2; http1 = some a.3 })

  after_h2 :
      Outcome ProtError (Option Bool) × x.Http × List x.Middle × x.H2
      → Server x
      → Outcome ProtError (Option Bool) × Server x
  after_h2 a s = (a.0, record s { callback_http = some a.1; middles = a.2; http2 = some a.3 })

  unfoldable pub handle_request : RequestRef → Server x → Outcome ProtError (Option Bool) × Server x
  unfolding after_h1 after_h2
  handle_request r s = elim s.callback_http [
    | none ↦ (err (extension "http callback is none"), s)
    | some f ↦
        by_connection (λ h. after_h1 (x.h1_handle_request s.addr r f s.middles h) s)
          (λ h. after_h2 (x.h2_handle_request s.addr r f s.middles h) s) (ok none, s) s.http1
          s.http2
  ]

  unfoldable pub handle_close : Server x → Outcome ProtError (Unit {0}) × Server x
  handle_close s = elim s.callback_http [
    | none ↦ (err (extension "http callback is none"), s)
    | some f ↦ (ok tt, record s { callback_http = some (x.close_connect f) })
  ]

  process_errors : ProtError → List x.Middle → List x.Middle
  process_errors e [] = []
  process_errors e (m ∷ ms) = x.process_error e m ∷ process_errors e ms

  -- The request that asked for HTTP/2 is the first one there.
  first_request :
      Option RequestRef → x.Http → x.H2 → Server x → Outcome ProtError (Unit {0}) × Server x
  unfolding after_h2
  first_request none f h s = (ok tt, s)
  first_request (some r) f h s = after_h2 (x.h2_handle_request s.addr r f s.middles h) s >>> λ v t.
      (ok tt, record t { req_num = wrapping_next t.req_num })

  unfoldable pub upgrade :
      Option x.H1
      → Bytes
      → Option RequestRef
      → x.Http
      → Server x
      → Outcome ProtError (Unit {0}) × Server x
  unfolding first_request
  upgrade none b r f s = (err (server_upgrade_http2 b r), s)
  upgrade (some h) b r f s =
      let h₂ = x.into_h2 b h in first_request r f h₂ (record s { http1 = none; http2 = some h₂ })

  abbrev told : ProtError → Server x → Outcome ProtError (Unit {0}) × Server x
  told e s = (err e, record s { middles = process_errors e s.middles })

  unfoldable pub handle_error : ProtError → Server x → Outcome ProtError (Unit {0}) × Server x
  unfolding upgrade process_errors
  handle_error e s = elim s.callback_http [
    | none ↦ (err e, s)
    | some f ↦ by_error (λ b r. upgrade s.http1 b r f s) (λ r. told e s) (told e s) e
  ]

  counted : RequestRef → Server x → Outcome ProtError (Option RequestRef) × Server x
  counted r s = (ok (some r), record s { req_num = wrapping_next s.req_num })

  -- A request that asks for another protocol goes to the caller as an error.
  unfoldable pub sort_request :
      Option String → RequestRef → Server x → Outcome ProtError (Option RequestRef) × Server x
  unfolding counted
  sort_request none r s = counted r s
  sort_request (some protocol) r s =
      if str_eq protocol "h2c"
      then (err (server_upgrade_http2 x.upgrade_h2c (some r)), s)
      else if str_eq protocol "websocket"
      then (err (server_upgrade_ws r), s)
      else counted r s

  -- The next request of the connection that is there.
  unfoldable pub next_request : Server x → Outcome ProtError (Option RequestRef) × Server x
  next_request s =
      by_connection (λ h. let a = x.h1_incoming h in (a.0, record s { http1 = some a.1 }))
        (λ h. let a = x.h2_incoming h in (a.0, record s { http2 = some a.1 })) (ok none, s) s.http1
        s.http2

  unfoldable pub inner_incoming : Server x → Outcome ProtError (Option RequestRef) × Server x
  unfolding next_request sort_request
  inner_incoming s = next_request s >>> λ m t. elim m [
    | none ↦ (ok none, flush x t)
    | some r ↦ sort_request (x.upgrade_protocol r) r t
  ]

  received : Option (WsOption x.Receiver) → x.Receiver
  received none = x.channel
  received (some o) = elim o.receiver [ none ↦ x.channel | some r ↦ r ]

  taken : Option (WsOption x.Receiver) → Option (WsOption x.Receiver)
  taken none = none
  taken (some o) = some (record o { receiver = none })

  -- The WebSocket connection writes the answer 101 first.
  unfoldable pub take_over :
      Bytes → Option (WsOption x.Receiver) → Server x → Outcome ProtError (Next x) × Server x
  unfolding received taken
  take_over binary option s =
      let next = ok (upgraded (received option) (taken option)) in
      by_connection (λ h. (next, record s { http1 = none; ws = some (x.h1_into_ws binary h) }))
        (λ h. (next, record s { http2 = none; ws = some (x.h2_into_ws binary h) }))
        (err (extension "unknow version"), s) s.http1 s.http2

  abbrev with_ws :
      {A : Type 0} → Outcome ProtError A × x.Callback → Server x → Outcome ProtError A × Server x
  with_ws a s = (a.0, record s { callback_ws = some a.1 })

  dismiss : Unit {0} → Server x → Outcome ProtError (Next x) × Server x
  dismiss u s = (ok ended, flush x s)

  -- A handler that refuses answers with a response of its own, and the service ends.
  unfoldable pub upgrade_ws :
      Option x.Callback → RequestRef → Server x → Outcome ProtError (Next x) × Server x
  unfolding take_over dismiss
  upgrade_ws none r s = (err (extension "websocket callback is none"), s)
  upgrade_ws (some f) r s =
      let asked = x.on_request r f in
      with_ws asked s >>> λ response t.
      (let refused = send_response x response none t >>> λ u v. (ok ended, flush x v) in
        let accepted = with_ws (x.on_open r response asked.1) t >>> λ option v.
        take_over (x.serialize response) option v in
        if x.status response == 101 then accepted else refused)

  abbrev is_stopped : Server x → Bool
  is_stopped s = elim s.callback_http [ none ↦ false | some f ↦ not (x.is_continue_next f) ]

  unfoldable pub is_last : Server x → Bool
  is_last s = leb s.max_req_num s.req_num || is_stopped s

  -- The end of a round: the service stops at the highest number of requests, or where the handler says so.
  unfoldable pub check_stop : Server x → Outcome ProtError (Next x) × Server x
  unfolding handle_close
  check_stop s =
      let stop = handle_close (flush x s) >>> λ u t. (ok ended, t) in
      if is_last s then stop else (ok again, s)

  -- What follows an error, after the server has looked at it.
  unfoldable pub answered :
      Outcome ProtError (Unit {0}) × Server x → Outcome ProtError (Next x) × Server x
  unfolding handle_close check_stop
  answered (ok u, s) = check_stop s
  answered (err e, s) = handle_close s >>> λ u t. (err e, t)
  answered (pending, s) = (pending, s)
  answered (panic, s) = (panic, s)
  answered (spin, s) = (spin, s)

  unfoldable pub on_error : ProtError → Server x → Outcome ProtError (Next x) × Server x
  unfolding answered upgrade_ws handle_error
  on_error e s =
      let failed = answered (handle_error e s) in
      by_error (λ b r. failed) (λ r. upgrade_ws s.callback_ws r s) failed e

  unfoldable pub dispatched :
      Outcome ProtError (Option RequestRef) × Server x → Outcome ProtError (Next x) × Server x
  unfolding on_error handle_request check_stop handle_close
  dispatched (ok none, s) = handle_close s >>> λ u t. (ok ended, t)
  dispatched (ok (some r), s) = handle_request r s >>> λ v t. check_stop t
  dispatched (err e, s) = on_error e s
  dispatched (pending, s) = (pending, s)
  dispatched (panic, s) = (panic, s)
  dispatched (spin, s) = (spin, s)

  unfoldable pub round : Server x → Outcome ProtError (Next x) × Server x
  unfolding inner_incoming dispatched
  round s = dispatched (inner_incoming s)

  -- `rest` are the rounds that follow.
  abbrev pub go_on :
      Outcome ProtError (Next x) × Server x
      → Next x
      → Server x
      → Outcome ProtError (Next x) × Server x
  go_on rest again t = rest
  go_on rest ended t = (ok ended, t)
  go_on rest (upgraded r o) t = (ok (upgraded r o), t)

  -- The loop, on fuel: a round is a request or the move to HTTP/2.
  unfoldable pub incoming_loop : ℕ → Server x → Outcome ProtError (Next x) × Server x
  unfolding round
  incoming_loop zero s = (spin, s)
  incoming_loop (suc fuel) s = round s >>> λ n t. go_on (incoming_loop fuel t) n t
