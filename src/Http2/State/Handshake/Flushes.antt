-- ===== src/Http2/State/Handshake/Flushes.antt =====
-- The write of the upgrade answer in src/http2/state/state_handshake.rs.
use dmeng.Prelude.{
  ℕ, zero, suc, ◌≤◌, ◌<◌, ◌≡◌, refl, ap, ◌∙◌, ◌≢◌, inl, inr, [], ◌∷◌, ◌++◌, append_assoc, length,
  drop, length-drop, take-append-drop, arith, Bool-cases,
}
use dmeng.Prelude.Poll.{Outcome, ok, spin}
use dmeng.Error.{Bytes, ProtError}
use dmeng.Http2.Platform.{Platform, Lawful, Progresses, done}
use dmeng.Http2.Codec.{Codec, is_empty}
use dmeng.Http2.Codec.Stream.{is_empty-nil, is_empty-pos, Polled-cases}
use dmeng.Http2.State.Handshake.{flush_loop, flush}

-- What the write of `b` keeps: taken bytes and those left are those at the start, in order, the
-- codec's own buffer is untouched, and ok leaves nothing.
pub record Written (p : Platform) (l : Lawful p) (b : Bytes) (c : Codec p)
    (out : Outcome ProtError (Unit {0})) (b' : Bytes) (c' : Codec p) : Type 0 where
  pub conserved : l.sent c'.io ++ b' ≡ l.sent c.io ++ b
  pub buffered : c'.binary ≡ c.binary
  pub complete : out ≡ ok tt → b' ≡ []

module _ (p : Platform) (l : Lawful p) where
  step_conserved :
      (s t : p.Io) (b : Bytes) (n : ℕ)
      → p.poll_write s b ≡ done n t
      → l.sent t ++ drop n b ≡ l.sent s ++ b
  step_conserved s t b n e =
      rw ((l.write_done s t b n e).1, append_assoc, take-append-drop n b) refl

  flush_loop-Written :
      (fuel : ℕ) (b : Bytes) (c : Codec p)
      → let r = flush_loop p fuel b c in Written p l b c r.0 r.1 r.2
  unfolding flush_loop
  flush_loop-Written zero b c = record { conserved = refl; buffered = refl; complete = λ h. cc }
  flush_loop-Written (suc fuel) b c = elim (Polled-cases (p.poll_write c.io b)) [
    | inl (t, e) ↦
        rw (e, flush_loop)
          (record {
            conserved = ap (λ s. s ++ b) (l.write_wait _ _ _ e);
            buffered = refl;
            complete = λ h. cc;
          })
    | inr (inl (n, t, e)) ↦ elim (Bool-cases (is_empty (drop n b))) [
      | inl last ↦
          rw (e, flush_loop)
            (rw (last, flush_loop)
              (record {
                conserved = step_conserved c.io t b n e;
                buffered = refl;
                complete = λ _. is_empty-nil _ last;
              }))
      | inr more ↦
          let rest = flush_loop-Written fuel (drop n b) (record c { io = t }) in
          rw (e, flush_loop)
            (rw (more, flush_loop)
              (record {
                conserved = rest.conserved ∙ step_conserved c.io t b n e;
                buffered = rest.buffered;
                complete = rest.complete;
              }))
    ]
    | inr (inr (n, t, e)) ↦
        rw (e, flush_loop)
          (record {
            conserved = ap (λ s. s ++ b) (l.write_fail _ _ _ _ e);
            buffered = refl;
            complete = λ h. cc;
          })
  ]

  -- Whatever the transport answers, the write of an upgrade answer loses, repeats and reorders no byte,
  -- leaves the codec's own buffer alone, and is ok only when nothing is left to write.
  pub flush-Written : (b : Bytes) (c : Codec p) → let r = flush p b c in Written p l b c r.0 r.1 r.2
  unfolding flush
  flush-Written b c = elim (Bool-cases (is_empty b)) [
    | inl none_left ↦
        rw (none_left, flush)
          (record { conserved = refl; buffered = refl; complete = λ _. is_empty-nil b none_left })
    | inr some_left ↦ rw (some_left, flush) (flush_loop-Written (length b) b c)
  ]

module _ (p : Platform) (progresses : Progresses p) where
  flush_loop-ne-spin :
      (fuel : ℕ) (b : Bytes) (c : Codec p)
      → 0 < length b
      → length b ≤ fuel
      → (flush_loop p fuel b c).0 ≢ spin
  unfolding flush_loop
  flush_loop-ne-spin zero b c some_left enough = absurd (omega arith)
  flush_loop-ne-spin (suc fuel) b c some_left enough = elim (Polled-cases (p.poll_write c.io b)) [
    | inl (t, e) ↦ rw (e, flush_loop) (λ h. cc)
    | inr (inl (n, t, e)) ↦ elim (Bool-cases (is_empty (drop n b))) [
      | inl last ↦ rw (e, flush_loop) (rw (last, flush_loop) (λ h. cc))
      | inr more ↦
          rw (e, flush_loop)
            (rw (more, flush_loop)
              (flush_loop-ne-spin fuel (drop n b) (record c { io = t }) (is_empty-pos _ more)
                (omega (arith, length-drop n b, progresses _ _ _ _ e some_left))))
    ]
    | inr (inr (n, t, e)) ↦ rw (e, flush_loop) (λ h. cc)
  ]

  -- Where a write that is ready takes at least one byte, the loop ends: as many rounds as there are
  -- bytes are enough.
  pub flush-ne-spin : (b : Bytes) (c : Codec p) → (flush p b c).0 ≢ spin
  unfolding flush
  flush-ne-spin b c = elim (Bool-cases (is_empty b)) [
    | inl none_left ↦ rw (none_left, flush) (λ h. cc)
    | inr some_left ↦
        rw (some_left, flush)
          (flush_loop-ne-spin (length b) b c (is_empty-pos b some_left) (omega arith))
  ]

-- Without that the loop does not end: at a transport that answers a write with no byte taken and stays
-- as it was, it is still running after any number of rounds.
flush_loop-spins :
    (p : Platform) (b : Bytes) (c : Codec p)
    → 0 < length b
    → p.poll_write c.io b ≡ done 0 c.io
    → (fuel : ℕ) → (flush_loop p fuel b c).0 ≡ spin
unfolding flush_loop
flush_loop-spins p b c some_left e zero = refl
flush_loop-spins p [] c some_left e (suc fuel) = absurd (omega arith)
flush_loop-spins p (x ∷ b) c some_left e (suc fuel) =
    rw (e, flush_loop) (flush_loop-spins p (x ∷ b) c some_left e fuel)
