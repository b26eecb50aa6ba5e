-- ===== src/Http2/State/Handshake/Total.antt =====
-- The loops of src/http2/state/state_handshake.rs end, and a client reads nothing.
use dmeng.Prelude.{ℕ, zero, suc, ◌+◌, ◌-◌, ◌≤◌, ◌≢◌, Bool, true, false, [], ◌∷◌, length, arith}
use dmeng.Prelude.Poll.{spin, split, is_pending, is_ok, is_err, is_panic, is_spin}
use dmeng.Error.{Bytes}
use dmeng.Http2.Platform.{Platform, Progresses}
use dmeng.Http2.Codec.{Codec, read}
use dmeng.Http2.State.Handshake.{
  Handshaking, flushing, reading_preface, StateHandshake, flush, preface_loop, read_preface,
  handle_loop, poll_handle,
}
use dmeng.Http2.State.Handshake.Flushes.{flush-ne-spin}

read-ne-spin : (p : Platform) (n : ℕ) (c : Codec p) → (read p n c).0 ≢ spin
unfolding read
read-ne-spin p n c = ground arith

preface_loop-ne-spin :
    (p : Platform) (fuel pos : ℕ) (c : Codec p)
    → length p.magic - pos ≤ fuel
    → (preface_loop p fuel pos c).0 ≢ spin
unfolding preface_loop
preface_loop-ne-spin p zero pos c enough = ground arith
preface_loop-ne-spin p (suc fuel) pos c enough =
    let rem = length p.magic - pos in
    let c' = (read p rem c).1 in
    elim (split (read p rem c).0) [
      | is_pending e ↦ ground arith
      | is_ok [] e ↦ ground arith
      | is_ok (b ∷ bs) e ↦ ground (arith, preface_loop-ne-spin p fuel (pos + suc (length bs)) c')
      | is_err x e ↦ ground arith
      | is_panic e ↦ ground arith
      | is_spin e ↦ absurd (read-ne-spin p rem c e)
    ]

read_preface-ne-spin : (p : Platform) (pos : ℕ) (c : Codec p) → (read_preface p pos c).0 ≢ spin
unfolding read_preface
read_preface-ne-spin p pos c = preface_loop-ne-spin p (length p.magic) pos c (omega arith)

module _ (p : Platform) (progresses : Progresses p) where
  reading-ne-spin :
      (fuel pos : ℕ) (is_client : Bool) (c : Codec p)
      → (handle_loop p
          (suc fuel)
          (record { state = reading_preface pos; is_client = is_client })
          c).0
        ≢ spin
  unfolding handle_loop
  reading-ne-spin fuel pos is_client c = ground (arith, read_preface-ne-spin p pos c)

  flushing-ne-spin :
      (fuel : ℕ) (b : Bytes) (is_client : Bool) (c : Codec p)
      → (handle_loop p (suc (suc fuel)) (record { state = flushing b; is_client = is_client }) c).0
        ≢ spin
  unfolding handle_loop
  flushing-ne-spin fuel b true c = ground (arith, flush-ne-spin p progresses b c)
  flushing-ne-spin fuel b false c =
      ground (arith, flush-ne-spin p progresses b c, reading-ne-spin fuel 0 false (flush p b c).2)

  state-ne-spin :
      (s : Handshaking) (is_client : Bool) (c : Codec p)
      → (handle_loop p 4 (record { state = s; is_client = is_client }) c).0 ≢ spin
  unfolding handle_loop
  state-ne-spin Handshaking.none is_client c = flushing-ne-spin 1 [] is_client c
  state-ne-spin (flushing b) is_client c = flushing-ne-spin 2 b is_client c
  state-ne-spin (reading_preface pos) is_client c = reading-ne-spin 3 pos is_client c
  state-ne-spin Handshaking.done is_client c = λ h. cc

  -- Where a write that is ready takes at least one byte, no poll of the handshake loops for ever, in any
  -- state: the fuel of its loops is enough.
  pub poll_handle-ne-spin : (h : StateHandshake) (c : Codec p) → (poll_handle p h c).0 ≢ spin
  unfolding poll_handle
  poll_handle-ne-spin h c = state-ne-spin h.state h.is_client c
