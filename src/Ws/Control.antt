-- ===== src/Ws/Control.antt =====
-- src/ws/control.rs: the handshake, then the messages that go out, then those that come in.
use dmeng.Prelude.{ℕ, Bool, false, ◌&&◌, ◌+◌, Option, List, [], ◌∷◌, ◌++◌}
use dmeng.Prelude.Poll.{Outcome, pending, ok, err, panic, spin, ◌>>>◌}
use dmeng.Error.{Bytes, ProtError}
use dmeng.Http1.IoBuffer.{is_empty}
use dmeng.Ws.Platform.{Platform}
use dmeng.Ws.Codec
use dmeng.Ws.Codec.{WsCodec}
use dmeng.Ws.Handshake
use dmeng.Ws.Handshake.{WsStateHandshake}

pub record Control (p : Platform) : Type 0 where
  pub handshake : WsStateHandshake
  pub msgs : List p.Message
  pub is_client : Bool

-- A control block with the codec that every poll is handed.
pub record Conn (p : Platform) : Type 0 where
  pub control : Control p
  pub codec : WsCodec p

module _ (p : Platform) where
  unfoldable pub new : Control p
  new = record { handshake = Handshake.new_server; msgs = []; is_client = false }

  unfoldable pub set_handshake_status : Bytes → Bool → Control p → Control p
  set_handshake_status binary is_client k = record k {
    is_client = is_client;
    handshake = Handshake.set_handshake_status binary is_client k.handshake;
  }

  unfoldable pub send_owned_message : p.Message → Control p → Control p
  send_owned_message msg k = record k { msgs = k.msgs ++ (msg ∷ []) }

  -- The `while` of `poll_write`: a message that cannot be written is lost, and ends the loop. `randoms`
  -- are the masks.
  send_msgs :
      (ℕ → ℕ)
      → List p.Message
      → Bool
      → WsCodec p
      → Outcome ProtError (Unit {0}) × List p.Message × WsCodec p
  send_msgs randoms [] mask c = (ok tt, [], c)
  send_msgs randoms (m ∷ ms) mask c =
      let r = Codec.send_msg p m mask (randoms 0) c in
      let rest = send_msgs (λ n. randoms (n + 1)) ms mask r.1 in
      elim r.0 [
        | ok n ↦ rest
        | pending ↦ (pending, ms, r.1)
        | err e ↦ (err e, ms, r.1)
        | panic ↦ (panic, ms, r.1)
        | spin ↦ (spin, ms, r.1)
      ]

  unfoldable pub poll_write : (ℕ → ℕ) → Conn p → Outcome ProtError (Unit {0}) × Conn p
  unfolding send_msgs
  poll_write randoms s =
      let r = send_msgs randoms s.control.msgs s.control.is_client s.codec in
      let s' = record s { control = record (s.control) { msgs = r.1 }; codec = r.2 } in
      (r.0, s') >>> λ u t. (let f = Codec.flush p t.codec in (f.0, record t { codec = f.1 }))

  -- The answer of `poll_write` is dropped, but not a panic.
  unfoldable pub poll_request : (ℕ → ℕ) → Conn p → Outcome ProtError (Option p.Message) × Conn p
  unfolding poll_write
  poll_request randoms s =
      let h = Handshake.poll_handle p s.control.handshake s.codec in
      let s' = record s { control = record (s.control) { handshake = h.1 }; codec = h.2 } in
      (h.0, s') >>> λ u t.
      let w = poll_write randoms t in
      let n = Codec.poll_next p w.1.codec in
      let next : Outcome ProtError (Option p.Message) × Conn p =
        (n.0, record (w.1) { codec = n.1 }) in
      elim w.0 [
        | ok v ↦ next
        | pending ↦ next
        | err e ↦ next
        | panic ↦ (panic, w.1)
        | spin ↦ (spin, w.1)
      ]

  unfoldable pub is_write_end : Conn p → Bool
  is_write_end s = is_empty s.control.msgs && Codec.is_write_end p s.codec
