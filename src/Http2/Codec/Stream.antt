-- ===== src/Http2/Codec/Stream.antt =====
-- The byte stream of src/http2/codec/framed_write.rs: what the transport has taken, followed by what is
-- still buffered, and what a shutdown leaves behind.
use dmeng.Prelude.{
  ℕ, ◌<◌, ◌≡◌, ◌≢◌, refl, sym, ap, ◌∙◌, true, false, ◌⊎◌, inl, inr, [], ◌∷◌, ◌++◌, append_assoc,
  append-nil, length, drop, length-drop, take-append-drop, arith, Bool-cases,
}
use dmeng.Prelude.Poll.{Outcome, pending, ok, err, panic, spin}
use dmeng.Error.{Bytes, ProtError}
use dmeng.Http2.Frame.{Frame}
use dmeng.Http2.Platform.{Platform, Lawful, Polled, wait, done, fail, Result, good, bad}
use dmeng.Http2.Codec.{
  Codec, is_empty, has_capacity, flush, after_flush, then_shutdown, put_frame, poll_ready, shutdown,
  send_frame,
}

pub is_empty-nil : (b : Bytes) → is_empty b ≡ true → b ≡ []
is_empty-nil [] h = refl
is_empty-nil (x ∷ b) h = cc

pub is_empty-pos : (b : Bytes) → is_empty b ≡ false → 0 < length b
is_empty-pos [] h = cc
is_empty-pos (x ∷ b) h = omega arith

-- To split on a poll of the transport, and keep the equation.
pub Polled-cases :
    {S A : Type 0} (r : Polled S A)
    → ((t : S) × (r ≡ wait t))
      ⊎ ((a : A) × (t : S) × (r ≡ done a t))
      ⊎ ((e : ℕ) × (t : S) × (r ≡ fail e t))
Polled-cases (wait t) = inl (t, refl)
Polled-cases (done a t) = inr (inl (a, t, refl))
Polled-cases (fail e t) = inr (inr (e, t, refl))

after_flush-codec :
    (p : Platform) (r : Outcome ProtError (Unit {0}) × Codec p) → (after_flush p r).1 ≡ r.1
unfolding after_flush
after_flush-codec p (ok u, c) = ground arith
after_flush-codec p (pending, c) = refl
after_flush-codec p (err e, c) = refl
after_flush-codec p (panic, c) = refl
after_flush-codec p (spin, c) = refl

after_flush-has_capacity :
    (p : Platform) (r : Outcome ProtError (Unit {0}) × Codec p)
    → (after_flush p r).0 ≡ ok tt
    → has_capacity p (after_flush p r).1 ≡ true
unfolding after_flush
after_flush-has_capacity p (ok u, c) h = ground arith
after_flush-has_capacity p (pending, c) h = cc
after_flush-has_capacity p (err e, c) h = cc
after_flush-has_capacity p (panic, c) h = cc
after_flush-has_capacity p (spin, c) h = cc

put_frame-ne-pending :
    (p : Platform) (c : Codec p) (r : Result Bytes × p.HeaderIndex) → (put_frame p c r).0 ≢ pending
unfolding put_frame
put_frame-ne-pending p c (good b, index) = λ h. cc
put_frame-ne-pending p c (bad e, index) = λ h. cc

pub send_frame-ne-pending :
    (p : Platform) (f : Frame p.HeaderMap) (c : Codec p) → (send_frame p f c).0 ≢ pending
unfolding send_frame
send_frame-ne-pending p f c =
    put_frame-ne-pending p c (p.encode c.header_index c.max_send_frame_size f)

pub flush-safe : (p : Platform) (c : Codec p) → ((flush p c).0 ≢ panic) × ((flush p c).0 ≢ spin)
unfolding flush
flush-safe p c = ground arith

-- Neither waiting for room nor sending a frame panics or loops.
pub poll_ready-safe :
    (p : Platform) (c : Codec p) → ((poll_ready p c).0 ≢ panic) × ((poll_ready p c).0 ≢ spin)
unfolding poll_ready
poll_ready-safe p c = ground arith

put_frame-safe :
    (p : Platform) (c : Codec p) (r : Result Bytes × p.HeaderIndex)
    → ((put_frame p c r).0 ≢ panic) × ((put_frame p c r).0 ≢ spin)
unfolding put_frame
put_frame-safe p c (good b, index) = ((λ h. cc), λ h. cc)
put_frame-safe p c (bad e, index) = ((λ h. cc), λ h. cc)

pub send_frame-safe :
    (p : Platform) (f : Frame p.HeaderMap) (c : Codec p)
    → ((send_frame p f c).0 ≢ panic) × ((send_frame p f c).0 ≢ spin)
unfolding send_frame
send_frame-safe p f c = put_frame-safe p c (p.encode c.header_index c.max_send_frame_size f)

has_capacity-lt :
    (p : Platform) (c : Codec p) → has_capacity p c ≡ true → length c.binary < c.max_frame_size
unfolding has_capacity
has_capacity-lt p c h = ground arith

poll_ready-has_capacity :
    (p : Platform) (c : Codec p)
    → (poll_ready p c).0 ≡ ok tt
    → has_capacity p (poll_ready p c).1 ≡ true
unfolding poll_ready
poll_ready-has_capacity p c = elim (Bool-cases (has_capacity p c)) [
  | inl room ↦ rw (room, poll_ready) (λ h. room)
  | inr full ↦ rw (full, poll_ready) (after_flush-has_capacity p (flush p c))
]

not-is_empty : (n : ℕ) (b : Bytes) → n < length b → is_empty b ≡ false
not-is_empty n [] h = absurd (omega arith)
not-is_empty n (x ∷ b) h = refl

module _ (p : Platform) (l : Lawful p) where
  open l use {sent}

  abbrev pub stream : Codec p → Bytes
  stream c = sent c.io ++ c.binary

  -- Flushing moves bytes from the buffer to the transport, and loses, adds and reorders none.
  pub flush-stream : (c : Codec p) → stream (flush p c).1 ≡ stream c
  unfolding flush
  flush-stream c = elim (Bool-cases (is_empty c.binary)) [
    | inl none_left ↦ rw (none_left, flush)
    | inr some_left ↦ elim (Polled-cases (p.poll_write c.io c.binary)) [
      | inl (t, e) ↦ rw (some_left, e, flush) (ap (λ s. s ++ c.binary) (l.write_wait _ _ _ e))
      | inr (inl (n, t, e)) ↦
          rw (some_left, e, flush)
            (rw ((l.write_done _ _ _ _ e).1, append_assoc, take-append-drop n c.binary) refl)
      | inr (inr (n, t, e)) ↦
          rw (some_left, e, flush) (ap (λ s. s ++ c.binary) (l.write_fail _ _ _ _ e))
    ]
  ]

  pub poll_ready-stream : (c : Codec p) → stream (poll_ready p c).1 ≡ stream c
  unfolding poll_ready
  poll_ready-stream c = elim (Bool-cases (has_capacity p c)) [
    | inl room ↦ rw (room, poll_ready)
    | inr full ↦
        rw (full, poll_ready) (ap stream (after_flush-codec p (flush p c)) ∙ flush-stream c)
  ]

  -- Flushing and waiting for room move bytes from the buffer to the transport, in order, and lose, add
  -- and repeat none; `poll_ready` is ok only with room for less than a whole frame buffered.
  pub flush-poll_ready-stream :
      (c : Codec p)
      → (stream (flush p c).1 ≡ stream c)
        × (stream (poll_ready p c).1 ≡ stream c)
        × ((poll_ready p c).0 ≡ ok tt
            → length (poll_ready p c).1.binary < (poll_ready p c).1.max_frame_size)
  flush-poll_ready-stream c = (
    flush-stream c,
    poll_ready-stream c,
    λ h. has_capacity-lt p _ (poll_ready-has_capacity p c h),
  )

  put_frame-stream :
      (c : Codec p) (r : Result Bytes × p.HeaderIndex)
      → stream (put_frame p c r).1 ≡ stream c ++ elim r.0 [ good b ↦ b | bad e ↦ [] ]
  unfolding put_frame
  put_frame-stream c (good b, index) = rw append_assoc
  put_frame-stream c (bad e, index) = sym (append-nil _)

  -- Sending a frame appends what the encoder made of it at the end, and nothing where it fails.
  pub send_frame-stream :
      (f : Frame p.HeaderMap) (c : Codec p)
      → stream (send_frame p f c).1
        ≡ stream c
          ++ elim (p.encode c.header_index c.max_send_frame_size f).0 [ good b ↦ b | bad e ↦ [] ]
  unfolding send_frame
  send_frame-stream f c = put_frame-stream c (p.encode c.header_index c.max_send_frame_size f)

-- Where the transport takes only a part of the buffer and then closes, `shutdown` is ok, and the rest of
-- the buffer was never written.
shutdown-loses :
    (p : Platform) (c : Codec p) (n : ℕ) (s t : p.Io) (u : Unit {0})
    → p.poll_write c.io c.binary ≡ done n s
    → n < length c.binary
    → p.poll_shutdown s ≡ done u t
    → let (out, c') = shutdown p c in
      (out ≡ ok tt) × (c'.io ≡ t) × (c'.binary ≡ drop n c.binary) × (0 < length c'.binary)
unfolding shutdown
shutdown-loses p c n s t u written short closed =
    rw (not-is_empty n c.binary short, written, shutdown)
      (rw (closed, then_shutdown) (refl, refl, refl, omega (arith, length-drop n c.binary)))
