-- ===== src/Http2/State/Handshake.antt =====
-- src/http2/state/state_handshake.rs: the answer to an upgrade is written, then a server reads the
-- client's preface. A loop takes fuel, and answers `spin` where that runs out: a write takes one round
-- for each byte at most, a read likewise, and the outer loop at most four rounds.
pub mod Flushes
pub mod Preface
pub mod Total
use dmeng.Prelude.{
  ℕ, zero, suc, ◌+◌, ◌-◌, Bool, true, false, List, [], ◌∷◌, length, take, drop, ltb, ◌==◌,
  if◌then◌else◌,
}
use dmeng.Prelude.Poll.{Outcome, pending, ok, err, panic, spin}
use dmeng.Error.{Bytes, ProtError, io_error, extension}
use dmeng.Http2.Platform.{Platform, Polled}
use dmeng.Http2.Codec.{Codec, is_empty, read}

pub data Handshaking : Type 0 where
  none : Handshaking
  flushing : Bytes → Handshaking
  reading_preface : ℕ → Handshaking
  done : Handshaking

pub record StateHandshake : Type 0 where
  pub state : Handshaking
  pub is_client : Bool

unfoldable pub new_server : StateHandshake
new_server = record { state = Handshaking.none; is_client = false }

unfoldable pub new_client : StateHandshake
new_client = record { state = Handshaking.none; is_client = true }

unfoldable pub set_handshake_status : Bytes → Bool → StateHandshake → StateHandshake
set_handshake_status binary is_client h = record { state = flushing binary; is_client = is_client }

-- The code of an `UnexpectedEof`.
abbrev pub unexpected_eof : ℕ
unexpected_eof = 0

-- Are the bytes read those of the magic?
abbrev pub matches : Bytes → Bytes → Bool
matches [] [] = true
matches (a ∷ xs) (b ∷ ys) = let rest = matches xs ys in if a == b then rest else false
matches [] (b ∷ bs) = false
matches (a ∷ xs) [] = false

module _ (p : Platform) where
  -- The loop of `Flush::poll_handle`, past its first test: it writes to the transport itself, not
  -- through the codec's buffer.
  unfoldable pub flush_loop : ℕ → Bytes → Codec p → Outcome ProtError (Unit {0}) × Bytes × Codec p
  flush_loop zero b c = (spin, b, c)
  flush_loop (suc fuel) b c = elim (p.poll_write c.io b) [
    | Polled.wait io ↦ (pending, b, record c { io = io })
    | Polled.done n io ↦ elim (is_empty (drop n b)) [
      | true ↦ (ok tt, drop n b, record c { io = io })
      | false ↦ flush_loop fuel (drop n b) (record c { io = io })
    ]
    | Polled.fail e io ↦ (err (io_error e), b, record c { io = io })
  ]

  unfoldable pub flush : Bytes → Codec p → Outcome ProtError (Unit {0}) × Bytes × Codec p
  unfolding flush_loop
  flush b c = if is_empty b then (ok tt, b, c) else flush_loop (length b) b c

  -- `ReadPreface::poll_handle` at the position `pos`; the second answer is the position afterwards. A
  -- slice `buf[..rem]` of more than 24 bytes would panic.
  unfoldable pub preface_loop : ℕ → ℕ → Codec p → Outcome ProtError (Unit {0}) × ℕ × Codec p
  preface_loop zero pos c = (if length p.magic - pos == 0 then ok tt else spin, pos, c)
  preface_loop (suc fuel) pos c =
      let rem = length p.magic - pos in
      elim (ltb 0 rem) [
        | false ↦ (ok tt, pos, c)
        | true ↦ elim (ltb 24 rem) [
          | true ↦ (panic, pos, c)
          | false ↦
              let (got, c') = read p rem c in
              elim got [
                | pending ↦ (pending, pos, c')
                | err e ↦ (err e, pos, c')
                | panic ↦ (panic, pos, c')
                | spin ↦ (spin, pos, c')
                | ok [] ↦ (err (io_error unexpected_eof), pos, c')
                | ok (b ∷ bs) ↦
                    elim (matches (take (length (b ∷ bs)) (drop pos p.magic)) (b ∷ bs)) [
                      | true ↦ preface_loop fuel (pos + length (b ∷ bs)) c'
                      | false ↦ (err (extension "handshake not match"), pos, c')
                    ]
              ]
        ]
      ]

  unfoldable pub read_preface : ℕ → Codec p → Outcome ProtError (Unit {0}) × ℕ × Codec p
  unfolding preface_loop
  read_preface pos c = preface_loop (length p.magic) pos c

  -- The outer loop. A round that goes on has left `none` or `flushing` behind it.
  unfoldable pub handle_loop :
      ℕ → StateHandshake → Codec p → Outcome ProtError (Unit {0}) × StateHandshake × Codec p
  handle_loop zero h c = (spin, h, c)
  handle_loop (suc fuel) h c = elim h.state [
    | Handshaking.none ↦ handle_loop fuel (record h { state = flushing [] }) c
    | flushing b ↦
        let (out, b', c') = flush b c in
        elim out [
          | ok u ↦
              handle_loop fuel
                (record h { state = if h.is_client then Handshaking.done else reading_preface 0 })
                c'
          | pending ↦ (pending, record h { state = flushing b' }, c')
          | err e ↦ (err e, record h { state = flushing b' }, c')
          | panic ↦ (panic, record h { state = flushing b' }, c')
          | spin ↦ (spin, record h { state = flushing b' }, c')
        ]
    | reading_preface pos ↦
        let (out, pos', c') = read_preface pos c in
        elim out [
          | ok u ↦ (ok tt, record h { state = Handshaking.done }, c')
          | pending ↦ (pending, record h { state = reading_preface pos' }, c')
          | err e ↦ (err e, record h { state = reading_preface pos' }, c')
          | panic ↦ (panic, record h { state = reading_preface pos' }, c')
          | spin ↦ (spin, record h { state = reading_preface pos' }, c')
        ]
    | Handshaking.done ↦ (ok tt, h, c)
  ]

  unfoldable pub poll_handle :
      StateHandshake → Codec p → Outcome ProtError (Unit {0}) × StateHandshake × Codec p
  unfolding handle_loop
  poll_handle h c = handle_loop 4 h c
