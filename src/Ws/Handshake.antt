-- ===== src/Ws/Handshake.antt =====
-- src/ws/state/state_handshake.rs: the answer to the upgrade is written before any frame. The loop takes
-- fuel, a round for each byte, and answers `spin` where that runs out.
use dmeng.Prelude.{ℕ, zero, suc, Bool, true, false, length, drop, if◌then◌else◌}
use dmeng.Prelude.Poll.{Outcome, pending, ok, err, panic, spin}
use dmeng.Error.{Bytes, ProtError, io_error}
use dmeng.Transport.{Polled}
use dmeng.Http2.Codec.{is_empty}
use dmeng.Ws.Platform.{Platform}
use dmeng.Ws.Codec.{WsCodec}

pub data WsHandshaking : Type 0 where
  wait : WsHandshaking
  flushing : Bytes → WsHandshaking
  done : WsHandshaking

pub record WsStateHandshake : Type 0 where
  pub state : WsHandshaking
  pub is_client : Bool

unfoldable pub new_server : WsStateHandshake
new_server = record { state = wait; is_client = false }

unfoldable pub set_handshake_status : Bytes → Bool → WsStateHandshake → WsStateHandshake
set_handshake_status binary is_client h = record {
  state = if is_empty binary then done else flushing binary;
  is_client = is_client;
}

module _ (p : Platform) where
  unfoldable pub flush_loop :
      ℕ → Bytes → WsCodec p → Outcome ProtError (Unit {0}) × Bytes × WsCodec p
  flush_loop zero b c = (spin, b, c)
  flush_loop (suc fuel) b c = elim (p.poll_write c.io b) [
    | Polled.wait io ↦ (pending, b, record c { io = io })
    | Polled.done n io ↦ elim (is_empty (drop n b)) [
      | true ↦ (ok tt, drop n b, record c { io = io })
      | false ↦ flush_loop fuel (drop n b) (record c { io = io })
    ]
    | Polled.fail e io ↦ (err (io_error e), b, record c { io = io })
  ]

  unfoldable pub flush : Bytes → WsCodec p → Outcome ProtError (Unit {0}) × Bytes × WsCodec p
  unfolding flush_loop
  flush b c = if is_empty b then (ok tt, b, c) else flush_loop (length b) b c

  unfoldable pub poll_handle :
      WsStateHandshake → WsCodec p → Outcome ProtError (Unit {0}) × WsStateHandshake × WsCodec p
  unfolding flush
  poll_handle h c = elim h.state [
    | wait ↦ (pending, h, c)
    | flushing b ↦
        let r = flush b c in
        let h' = record h { state = flushing r.1 } in
        elim r.0 [
          | ok u ↦ (ok tt, record h { state = done }, r.2)
          | pending ↦ (pending, h', r.2)
          | err e ↦ (err e, h', r.2)
          | panic ↦ (panic, h', r.2)
          | spin ↦ (spin, h', r.2)
        ]
    | done ↦ (ok tt, h, c)
  ]
