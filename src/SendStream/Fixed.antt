-- ===== src/SendStream/Fixed.antt =====
-- A body whose length is known: what src/send_stream.rs moves of it, and how the bytes arrive.
use dmeng.Prelude.{
  ◌+◌, ◌≡◌, min, List, [], ◌∷◌, ◌++◌, append_assoc, length, take, drop, Bool-cases, inl, inr, leb,
  leb→le, take-append-le, drop-append-le, take-append-add, drop-append-add, drop-length,
  take-length, take-append-drop, length-take, length-drop, length-append, arith, refl, sym, ap, ◌∙◌,
}
use dmeng.Prelude.{◌-◌}
use dmeng.Prelude.{List-cases, append-nil, ◌<◌, ◌∙◌}
use dmeng.Prelude.{ap, sym}
use dmeng.Error.{Bytes}
use dmeng.SendStream.{SendStream, put_slice, take_fixed}

-- Nothing of a body of known length is lost, reordered or taken twice: the bytes given out and those
-- kept are the same stream as before, what is still to come sinks by what was given out, and one of
-- the two, the buffer or what is still to come, is used up.
pub take_fixed-conserves :
    (s : SendStream)
    → let s' = take_fixed s in
      (s'.real_read_buf ++ s'.read_buf ≡ s.real_read_buf ++ s.read_buf)
      × (length s'.real_read_buf + s'.left_read_body_len
          ≡ length s.real_read_buf + s.left_read_body_len)
      × (min s'.left_read_body_len (length s'.read_buf) ≡ 0)
unfolding take_fixed
take_fixed-conserves s =
    let len = min s.left_read_body_len (length s.read_buf) in
    let kept = take-append-drop len s.read_buf in
    let assoc = append_assoc s.real_read_buf (take len s.read_buf) (drop len s.read_buf) in
    let lt = length-take len s.read_buf in
    let ld = length-drop len s.read_buf in
    let la = length-append s.real_read_buf (take len s.read_buf) in grind arith

-- How the bytes of a body arrive: each piece is put in and processed.
unfoldable pub feed : List Bytes → SendStream → SendStream
feed [] s = s
feed (b ∷ bs) s = feed bs (take_fixed (put_slice b s))

abbrev pub concat : List Bytes → Bytes
concat [] = []
concat (b ∷ bs) = b ++ concat bs

pub concat-append : (ds es : List Bytes) → concat (ds ++ es) ≡ concat ds ++ concat es
concat-append [] es = refl
concat-append (d ∷ ds) es =
    ap (λ b. d ++ b) (concat-append ds es) ∙ sym (append_assoc d (concat ds) (concat es))

-- A buffer that is shorter than what is to come is taken whole.
pub take_fixed-short :
    (s : SendStream)
    → length s.read_buf < s.left_read_body_len
    → take_fixed s ≡ record s {
      left_read_body_len = s.left_read_body_len - length s.read_buf;
      real_read_buf = s.real_read_buf ++ s.read_buf;
      read_buf = [];
    }
unfolding take_fixed
take_fixed-short s lt = elim (List-cases s.read_buf) [
  | inl e ↦ grind (arith, append-nil s.real_read_buf)
  | inr (x, r, e) ↦ grind (arith, take-length s.read_buf, drop-length s.read_buf)
]

put_slice-nil : (s : SendStream) → put_slice [] s ≡ s
unfolding put_slice
put_slice-nil s = rw (append-nil s.read_buf)

pub take_fixed-idle :
    (s : SendStream) → min s.left_read_body_len (length s.read_buf) ≡ 0 → take_fixed s ≡ s
unfolding take_fixed
take_fixed-idle s idle = rw idle

-- Processing before the next piece comes in changes nothing.
take_fixed-early :
    (b : Bytes) (s : SendStream)
    → take_fixed (put_slice b (take_fixed s)) ≡ take_fixed (put_slice b s)
unfolding take_fixed put_slice
take_fixed-early [] s =
    ap take_fixed (put_slice-nil (take_fixed s))
    ∙ take_fixed-idle (take_fixed s) (take_fixed-conserves s).2
    ∙ ap take_fixed (sym (put_slice-nil s))
take_fixed-early (x ∷ r) s =
    let b = x ∷ r in
    elim (Bool-cases (leb s.left_read_body_len (length s.read_buf))) [
      | inl e ↦
          let le = leb→le s.left_read_body_len (length s.read_buf) e in
          grind (
            arith,
            take-append-le s.left_read_body_len s.read_buf b le,
            drop-append-le s.left_read_body_len s.read_buf b le,
            length-append s.read_buf b,
          )
      | inr e ↦
          let lt : length s.read_buf < s.left_read_body_len = ground arith in
          let n = min (s.left_read_body_len - length s.read_buf) (length b) in
          let all = min s.left_read_body_len (length (s.read_buf ++ b)) in
          let h : all ≡ length s.read_buf + n = ground (arith, length-append s.read_buf b) in
          rw (take_fixed-short s lt) (
            grind (
              arith,
              append-nil s.real_read_buf,
              take-append-add all n s.read_buf b h,
              drop-append-add all n s.read_buf b h,
              length-append s.read_buf b,
              append_assoc s.real_read_buf s.read_buf (take n b),
            ))
    ]

twice :
    (a b : Bytes) (s : SendStream)
    → take_fixed (put_slice b (take_fixed (put_slice a s))) ≡ take_fixed (put_slice (a ++ b) s)
unfolding put_slice
twice a b s = take_fixed-early b (put_slice a s) ∙ rw (append_assoc s.read_buf a b)

-- However a body arrives in pieces, the stream ends up as if it had come in one.
pub feed-concat :
    (b : Bytes) (bs : List Bytes) (s : SendStream)
    → feed (b ∷ bs) s ≡ take_fixed (put_slice (concat (b ∷ bs)) s)
unfolding feed
feed-concat b [] s = rw (append-nil b)
feed-concat b (c ∷ cs) s =
    feed-concat c cs (take_fixed (put_slice b s)) ∙ twice b (concat (c ∷ cs)) s
